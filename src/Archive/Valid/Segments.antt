-- ===== src/Archive/Valid/Segments.antt =====
-- crates/core/src/archive.rs: the checks of `validate_archive` on each segment and its chunk file.
use sealedge.Base.{
  [], List, ◌++◌, suc, ◌+◌, map, subst, ℕ, ◌≤◌, ◌≡◌, refl, ap, sym, ◌∙◌, Bytes, Text, Bool, true,
  false, bytes_eq, bytes_eq_iff, bytes_eq_refl, Bool-cases, inl, inr, length, ltb, ◌==◌,
  Result-cases, ok, err, bind-ok, ensure-ok, map_err, map_err-ok, ok_or-ok, arith, if◌then◌else◌,
  some,
}
use sealedge.Chain.{ChainSegment, segment_hash, chain_next, chain_from, hashes_of}
use native.Mathlib.Numerals.{add-one}
use sealedge.Archive.Valid.{IsStored, AreStored}
use sealedge.Manifest.{Floats, SegmentInfo}
use sealedge.Archive.{
  ◌∷◌, ArchiveError, max_stored_chunk_bytes, Tools, ToolsLaws, chunks, Disk, open_file,
  chunk_filename,
}
use sealedge.Archive.Reader.{
  check_name, parse_chunk_index, open_chunk, stream_hash_chunk, check_segment, check_segments,
}
use sealedge.Archive.Reader.Bounded.{stream_hash_chunk-segment_hash}

check_name-ok : (i : ℕ) (name : Text) → check_name i name ≡ ok tt → name ≡ chunk_filename i
unfolding check_name
check_name-ok i name h = elim (Bool-cases (bytes_eq name (chunk_filename i))) [
  | inl same ↦ (bytes_eq_iff name (chunk_filename i)).0 same
  | inr other ↦ elim (Result-cases (parse_chunk_index name)) [
    | inl (found, e) ↦ absurd (cc)
    | inr (x, e) ↦ absurd (cc)
  ]
]

pub check_name-chunk_filename : (i : ℕ) → check_name i (chunk_filename i) ≡ ok tt
unfolding check_name
check_name-chunk_filename i = rw (bytes_eq_refl (chunk_filename i))

unless-ok :
    {A : Type 0} (test : Bool) (e : ArchiveError) (a b : A)
    → (if test then err e else ok a) ≡ ok b
    → (test ≡ false) × (a ≡ b)
unless-ok true e a b h = absurd (cc)
unless-ok false e a b h = (refl, cc)

module _ (fl : Floats) (t : Tools fl) (laws : ToolsLaws t) where
  open fl use {F64}

  -- A hash is given for a file that is there, within the cap.
  stream_hash_chunk-ok :
      (filename : Text) (d : Disk) (hash : Bytes)
      → stream_hash_chunk fl t filename d ≡ ok hash
      → (content : Bytes) × (open_file chunks filename d ≡ some content)
        × (length content ≤ max_stored_chunk_bytes)
        × (hash ≡ segment_hash t.blake3 content)
  unfolding open_chunk
  stream_hash_chunk-ok filename d hash h =
      let e = sym (stream_hash_chunk-segment_hash fl t laws filename d) ∙ h in
      let opened = bind-ok (open_chunk filename d) _ hash e in
      let found = ok_or-ok (open_file chunks filename d) _ opened.0 opened.1 in
      let within = unless-ok (ltb max_stored_chunk_bytes (length (opened.0))) _ _ hash opened.2 in
      (opened.0, found, ground (arith, within.0), sym within.1)

  stream_hash_chunk_complete :
      (filename : Text) (d : Disk) (content : Bytes)
      → open_file chunks filename d ≡ some content
      → length content ≤ max_stored_chunk_bytes
      → stream_hash_chunk fl t filename d ≡ ok (segment_hash t.blake3 content)
  unfolding open_chunk
  stream_hash_chunk_complete filename d content found bound =
      let small : ltb max_stored_chunk_bytes (length content) ≡ false = ground (arith, bound) in
      stream_hash_chunk-segment_hash fl t laws filename d ∙ rw (found, small)

  -- A segment that passes is stored, with the link that its text holds.
  check_segment-ok :
      (i : ℕ) (s : SegmentInfo F64) (d : Disk) (c : ChainSegment)
      → check_segment fl t i s d ≡ ok c
      → (content : Bytes) × (s.chunk_file ≡ chunk_filename i)
        × (open_file chunks (chunk_filename i) d ≡ some content)
        × (length content ≤ max_stored_chunk_bytes)
        × (s.blake3_hash ≡ t.hex (segment_hash t.blake3 content))
        × (c.stored_hash ≡ segment_hash t.blake3 content)
        × (t.hex_decode s.continuity_hash ≡ ok c.stored_continuity)
  unfolding check_segment
  check_segment-ok i s d c h =
      let named = bind-ok (check_name i s.chunk_file) _ c h in
      let hashed = bind-ok (stream_hash_chunk fl t (chunk_filename i) d) _ c named.2 in
      let file = stream_hash_chunk-ok (chunk_filename i) d hashed.0 hashed.1 in
      let matched = ensure-ok (bytes_eq s.blake3_hash (t.hex hashed.0)) _ _ c hashed.2 in
      let decoded = bind-ok (map_err _ (t.hex_decode s.continuity_hash)) _ c matched.1 in
      let sized = ensure-ok (length (decoded.0) == 32) _ _ c decoded.2 in
      let text = (bytes_eq_iff s.blake3_hash (t.hex hashed.0)).0 matched.0 in
      let link = map_err-ok _ (t.hex_decode s.continuity_hash) decoded.0 decoded.1 in
      (
        file.0,
        check_name-ok i s.chunk_file named.1,
        file.1,
        file.2,
        text ∙ ap t.hex file.3,
        cc (sized.1, file.3),
        cc (sized.1, link),
      )

  check_segment_complete :
      (d : Disk) (i : ℕ) (previous : Bytes) (s : SegmentInfo F64) (content : Bytes)
      → IsStored fl t d i previous s content
      → check_segment fl t i s d
        ≡ ok (record {
          index = i;
          stored_hash = segment_hash t.blake3 content;
          stored_continuity = chain_next t.blake3 previous (segment_hash t.blake3 content);
        })
  unfolding check_segment
  check_segment_complete d i previous s content st =
      let hash = segment_hash t.blake3 content in
      let named : check_name i s.chunk_file ≡ ok tt =
        ap (check_name i) st.name ∙ check_name-chunk_filename i in
      let matched : bytes_eq s.blake3_hash (t.hex hash) ≡ true = (bytes_eq_iff _ _).1 st.hash in
      let sized : (length (chain_next t.blake3 previous hash) == 32) ≡ true =
        unfold chain_next in ground (arith, laws.length-blake3 (previous ++ hash)) in
      rw (
        named,
        stream_hash_chunk_complete (chunk_filename i) d content st.found st.bound,
        matched,
        st.link,
        sized,
      )

  -- Segments that pass, and whose stored links are the chain over their hashes, are stored.
  pub check_segments-AreStored :
      (d : Disk) (i : ℕ) (previous : Bytes) (segments : List (SegmentInfo F64))
      (cs : List ChainSegment)
      → check_segments fl t i segments d ≡ ok cs
      → cs ≡ chain_from t.blake3 i previous (hashes_of cs)
      → (contents : List Bytes) × AreStored fl t d i previous segments contents
  unfolding check_segments chain_from
  check_segments-AreStored d i previous [] cs h e = ([], tt)
  check_segments-AreStored d i previous (s ∷ rest) cs h e =
      let first = bind-ok (check_segment fl t i s d) _ cs h in
      let others = bind-ok (check_segments fl t (i + 1) rest d) _ cs first.2 in
      let st = check_segment-ok i s d first.0 first.1 in
      let hash = segment_hash t.blake3 (st.0) in
      let built : first.0 ∷ others.0
          ≡ chain_from t.blake3 i previous (hashes_of (first.0 ∷ others.0)) =
        subst (λ x. x ≡ chain_from t.blake3 i previous (hashes_of x)) (cc (others.2)) e in
      let link : first.0.stored_continuity ≡ chain_next t.blake3 previous hash = cc (built, st.5) in
      let ih =
        check_segments-AreStored d (i + 1) (chain_next t.blake3 previous hash) rest others.0
          others.1 (cc (built, st.5, add-one i)) in
      (
        st.0 ∷ ih.0,
        (
          record { name = st.1; found = st.2; bound = st.3; hash = st.4; link = cc (link, st.6) },
          subst (λ k. AreStored fl t d k (chain_next t.blake3 previous hash) rest ih.0) (add-one i)
              ih.1,
        ),
      )

  pub AreStored-check_segments :
      (d : Disk) (i : ℕ) (previous : Bytes) (segments : List (SegmentInfo F64))
      (contents : List Bytes)
      → AreStored fl t d i previous segments contents
      → check_segments fl t i segments d
        ≡ ok (chain_from t.blake3 i previous (map (segment_hash t.blake3) contents))
  unfolding check_segments chain_from
  AreStored-check_segments d i previous [] [] st = refl
  AreStored-check_segments d i previous [] (content ∷ contents) st = elim st [ ]
  AreStored-check_segments d i previous (s ∷ rest) [] st = elim st [ ]
  AreStored-check_segments d i previous (s ∷ rest) (content ∷ contents) st =
      let ih = AreStored-check_segments d (suc i) _ rest contents st.1 in
      rw (check_segment_complete d i previous s content st.0, add-one i, ih)
