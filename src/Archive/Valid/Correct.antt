-- ===== src/Archive/Valid/Correct.antt =====
-- crates/core/src/archive.rs: `validate_archive` and the description of a valid archive.
use sealedge.Base.{
  ◌≡◌, refl, ap, sym, ◌↔◌, List, [], ◌∷◌, Bytes, Text, str, true, not, ◌&&◌, Option, none, some,
  bytes_eq, bytes_eq_iff, Bool-cases, inl, inr, ok, bind-ok, ensure-ok, map_err, map_err-ok, map,
  Has, arith,
}
use sealedge.Chain.{genesis, chain_from, chain_of, segment_hash, validate_chain}
use sealedge.Chain.Correct.{validate_chain_sound, validate_chain-chain_of}
use sealedge.Manifest.{Floats, TrstManifest}
use sealedge.Manifest.Validate.{contains, validate}
use sealedge.Manifest.Validate.Correct.{validate-IsWellFormed}
use sealedge.Archive.{
  json, chain, manifest_max_bytes, sig_max_bytes, Tools, ToolsLaws, Files, base, signatures, Disk,
  manifest_name, sig_name,
}
use sealedge.Archive.Reader.{
  ends_with, read_capped, check_unreferenced, check_signature, manifest_error, read_manifest,
  check_segments, validate_archive,
}
use sealedge.Archive.Reader.Bounded.{read_capped-ok, read_capped_complete}
use sealedge.Archive.Valid.{IsReferenced, SignatureAgrees, HasManifest, IsValid}
use sealedge.Archive.Valid.Segments.{check_segments-AreStored, AreStored-check_segments}

contains-Has : (xs : List Text) (a : Text) → contains xs a ≡ true → Has a xs
contains-Has [] a h = absurd (cc)
contains-Has (x ∷ xs) a h = elim (Bool-cases (bytes_eq x a)) [
  | inl same ↦ inl (sym ((bytes_eq_iff x a).0 same))
  | inr other ↦ inr (contains-Has xs a (rw other at h))
]

contains_complete : (xs : List Text) (a : Text) → Has a xs → contains xs a ≡ true
contains_complete [] a h = elim h [ ]
contains_complete (x ∷ xs) a (inl e) = rw ((bytes_eq_iff x a).1 (sym e))
contains_complete (x ∷ xs) a (inr h) = elim (Bool-cases (bytes_eq x a)) [
  | inl same ↦ rw same
  | inr other ↦ rw (other, contains_complete xs a h)
]

-- The folder's loop passes exactly when each `.bin` file is named.
check_unreferenced-IsReferenced :
    (names : List Text) (files : Option Files)
    → check_unreferenced names files ≡ ok tt
    → IsReferenced names files
unfolding check_unreferenced
check_unreferenced-IsReferenced names none h = tt
check_unreferenced-IsReferenced names (some []) h = tt
check_unreferenced-IsReferenced names (some ((name, content) ∷ rest)) h =
    let first =
      ensure-ok (not (ends_with name (str ".bin") && not (contains names name))) _ _ tt h in
    (
      λ bin. contains-Has names name (ground (arith, first.0, bin)),
      check_unreferenced-IsReferenced names (some rest) first.1,
    )

IsReferenced-check_unreferenced :
    (names : List Text) (files : Option Files)
    → IsReferenced names files
    → check_unreferenced names files ≡ ok tt
unfolding check_unreferenced
IsReferenced-check_unreferenced names none h = refl
IsReferenced-check_unreferenced names (some []) h = refl
IsReferenced-check_unreferenced names (some ((name, content) ∷ rest)) h =
    let ih = IsReferenced-check_unreferenced names (some rest) h.1 in
    elim (Bool-cases (ends_with name (str ".bin"))) [
      | inl bin ↦ rw (bin, contains_complete names name (h.0 bin), ih)
      | inr other ↦ rw (other, ih)
    ]

module _ (fl : Floats) (t : Tools fl) where
  open fl use {F64}

  check_signature-SignatureAgrees :
      (embedded : Option Text) (sig : Bytes)
      → check_signature fl t embedded sig ≡ ok tt
      → SignatureAgrees fl t embedded sig
  check_signature-SignatureAgrees none sig h = tt
  check_signature-SignatureAgrees (some e) sig h =
      elim (Bool-cases (bytes_eq e (t.utf8_lossy sig))) [
        | inl same ↦ (bytes_eq_iff e (t.utf8_lossy sig)).0 same
        | inr other ↦ absurd (ground (arith, other, h))
      ]

  SignatureAgrees-check_signature :
      (embedded : Option Text) (sig : Bytes)
      → SignatureAgrees fl t embedded sig
      → check_signature fl t embedded sig ≡ ok tt
  SignatureAgrees-check_signature none sig h = refl
  SignatureAgrees-check_signature (some e) sig h = rw ((bytes_eq_iff e (t.utf8_lossy sig)).1 h)

  pub read_manifest-HasManifest :
      (shown : Text → Text) (d : Disk) (m : TrstManifest F64) (sig : Bytes)
      → read_manifest fl t shown d ≡ ok (m, sig)
      → HasManifest fl t d m sig
  unfolding read_manifest
  read_manifest-HasManifest shown d m sig h =
      let file = bind-ok (read_capped shown base manifest_name manifest_max_bytes d) _ (m, sig) h in
      let whole = read_capped-ok shown base manifest_name manifest_max_bytes d file.0 file.1 in
      let parsed = bind-ok (map_err json (t.parse file.0)) _ (m, sig) file.2 in
      let detached =
        bind-ok (read_capped shown signatures sig_name sig_max_bytes d) _ (m, sig) parsed.2 in
      let checked =
        bind-ok (check_signature fl t parsed.0.signature detached.0) _ (m, sig) detached.2 in
      let same_manifest : parsed.0 ≡ m = cc (checked.2) in
      let same_sig : detached.0 ≡ sig = cc (checked.2) in
      let sig_whole =
        read_capped-ok shown signatures sig_name sig_max_bytes d sig (cc (detached.1, same_sig)) in
      record {
        content = file.0;
        manifest_file = whole.0;
        manifest_bound = whole.1;
        parsed = map_err-ok json (t.parse file.0) m (cc (parsed.1, same_manifest));
        sig_file = sig_whole.0;
        sig_bound = sig_whole.1;
        agree =
            check_signature-SignatureAgrees m.signature sig
              (cc (checked.1, same_manifest, same_sig));
      }

  pub HasManifest-read_manifest :
      (shown : Text → Text) (d : Disk) (m : TrstManifest F64) (sig : Bytes)
      → HasManifest fl t d m sig
      → read_manifest fl t shown d ≡ ok (m, sig)
  unfolding read_manifest
  HasManifest-read_manifest shown d m sig h = rw (
    read_capped_complete shown base manifest_name manifest_max_bytes d h.content h.manifest_file
        h.manifest_bound,
    h.parsed,
    read_capped_complete shown signatures sig_name sig_max_bytes d sig h.sig_file h.sig_bound,
    SignatureAgrees-check_signature m.signature sig h.agree,
  )

  validate_archive-IsValid :
      ToolsLaws t
      → (shown : Text → Text) (d : Disk) → validate_archive fl t shown d ≡ ok tt
      → IsValid fl t d
  unfolding validate_archive chain_of
  validate_archive-IsValid laws shown d h =
      let read = bind-ok (read_manifest fl t shown d) _ tt h in
      let m = read.0.0 in
      let refs =
        bind-ok (check_unreferenced (map (λ s. s.chunk_file) m.segments) d.chunk_files) _ tt
          read.2 in
      let formed = bind-ok (map_err manifest_error (validate fl m)) _ tt refs.2 in
      let checked = bind-ok (check_segments fl t 0 m.segments d) _ tt formed.2 in
      let linked = map_err-ok chain (validate_chain t.blake3 t.hex checked.0) tt checked.2 in
      let stored =
        check_segments-AreStored fl t laws d 0 (genesis t.blake3) m.segments checked.0 checked.1
          (validate_chain_sound t.blake3 t.hex checked.0 linked) in
      record {
        manifest = m;
        sig = read.0.1;
        contents = stored.0;
        has_manifest = read_manifest-HasManifest shown d m (read.0.1) read.1;
        referenced = check_unreferenced-IsReferenced _ d.chunk_files refs.1;
        well_formed =
            (validate-IsWellFormed fl m).0 (map_err-ok manifest_error (validate fl m) tt formed.1);
        stored = stored.1;
      }

  linked :
      (hashes : List Bytes)
      → validate_chain t.blake3 t.hex (chain_from t.blake3 0 (genesis t.blake3) hashes) ≡ ok tt
  linked hashes = unfold chain_of in validate_chain-chain_of t.blake3 t.hex hashes

  IsValid-validate_archive :
      ToolsLaws t
      → (shown : Text → Text) (d : Disk) → IsValid fl t d
      → validate_archive fl t shown d ≡ ok tt
  unfolding validate_archive
  IsValid-validate_archive laws shown d v =
      let m = v.manifest in
      rw
        (
          HasManifest-read_manifest shown d m v.sig v.has_manifest,
          IsReferenced-check_unreferenced (map (λ s. s.chunk_file) m.segments) d.chunk_files
              v.referenced,
          (validate-IsWellFormed fl m).1 v.well_formed,
          AreStored-check_segments fl t laws d 0 (genesis t.blake3) m.segments v.contents v.stored,
        )
        (ap (map_err chain) (linked (map (segment_hash t.blake3) v.contents)))

  -- `validate_archive` accepts a disk exactly when there are a manifest, a signature and contents of
  -- chunk files such that: both files are there within their caps, the manifest parses, an embedded
  -- signature is the detached one, each `.bin` file of the chunk folder is named by a segment, the
  -- manifest is well formed, and segment after segment the file of its position is there within the
  -- cap under the segment's name, with the segment's hash, and the segment's continuity value links
  -- that hash to the link before it, back to genesis. Digests are 32 bytes, hex decodes to what it
  -- encodes, and the blocks that a file is read in are not empty and make up its content.
  pub validate_archive_iff :
      ToolsLaws t
      → (shown : Text → Text) (d : Disk) → (validate_archive fl t shown d ≡ ok tt) ↔ IsValid fl t d
  validate_archive_iff laws shown d =
      (validate_archive-IsValid laws shown d, IsValid-validate_archive laws shown d)
