-- ===== src/Archive/Valid/Tamper.antt =====
-- crates/core/src/archive.rs: the chunks of two archives that end in one continuity value.
use sealedge.Base.{
  ℕ, suc, ◌+◌, ◌≡◌, refl, sym, ◌∙◌, ◌⊎◌, List, [], ◌∷◌, Bytes, Text, inl, inr, length, ok, map, All,
  arith,
}
use native.Mathlib.Numerals.{add-one}
use sealedge.Chain.{genesis, segment_hash, tip_from}
use sealedge.Chain.Tamper.{Collision, IsDigest, digest-injective, tip_from-injective}
use sealedge.Manifest.{Floats, SegmentInfo, TrstManifest}
use sealedge.Archive.{max_stored_chunk_bytes, Tools, ToolsLaws, Disk}
use sealedge.Archive.Reader.{open_chunk, read_chunks, read_archive, validate_archive}
use sealedge.Archive.Reader.Bounded.{take-all, within_sound}
use sealedge.Archive.Valid.{AreStored, HasManifest, IsValid}
use sealedge.Archive.Valid.Segments.{check_name-chunk_filename}
use sealedge.Archive.Valid.Correct.{validate_archive_iff, HasManifest-read_manifest}

abbrev pub indexed : ℕ → List Bytes → List (ℕ × Bytes)
indexed i [] = []
indexed i (content ∷ rest) = (i, content) ∷ indexed (i + 1) rest

module _ (blake3 : Bytes → Bytes) where
  map-segment_hash-injective :
      (xs ys : List Bytes)
      → map (segment_hash blake3) xs ≡ map (segment_hash blake3) ys
      → (xs ≡ ys) ⊎ Collision blake3
  unfolding segment_hash
  map-segment_hash-injective [] [] e = inl refl
  map-segment_hash-injective [] (y ∷ ys) e = absurd (cc)
  map-segment_hash-injective (x ∷ xs) [] e = absurd (cc)
  map-segment_hash-injective (x ∷ xs) (y ∷ ys) e = elim (map-segment_hash-injective xs ys (cc)) [
    | inl rest ↦ elim (digest-injective blake3 x y (cc)) [ inl p ↦ inl (cc) | inr c ↦ inr c ]
    | inr c ↦ inr c
  ]

  map-segment_hash-IsDigest :
      ((m : Bytes) → IsDigest (blake3 m))
      → (xs : List Bytes) → All IsDigest (map (segment_hash blake3) xs)
  unfolding segment_hash
  map-segment_hash-IsDigest size [] = tt
  map-segment_hash-IsDigest size (x ∷ xs) = (size x, map-segment_hash-IsDigest size xs)

module _ (fl : Floats) (t : Tools fl) where
  open fl use {F64}

  -- The continuity text of the last segment, `before` if there is none.
  unfoldable pub last_continuity : Text → List (SegmentInfo F64) → Text
  last_continuity before [] = before
  last_continuity before (s ∷ rest) = last_continuity s.continuity_hash rest

  last_continuity-tip_from :
      (d : Disk) (i : ℕ) (before : Text) (previous : Bytes) (segments : List (SegmentInfo F64))
      (contents : List Bytes)
      → t.hex_decode before ≡ ok previous
      → AreStored fl t d i previous segments contents
      → t.hex_decode (last_continuity before segments)
        ≡ ok (tip_from t.blake3 previous (map (segment_hash t.blake3) contents))
  unfolding last_continuity tip_from
  last_continuity-tip_from d i before previous [] [] e st = e
  last_continuity-tip_from d i before previous [] (content ∷ contents) e st = elim st [ ]
  last_continuity-tip_from d i before previous (s ∷ rest) [] e st = elim st [ ]
  last_continuity-tip_from d i before previous (s ∷ rest) (content ∷ contents) e st =
      last_continuity-tip_from d (suc i) s.continuity_hash _ rest contents st.0.link st.1

  -- What is stored is read.
  AreStored-read_chunks :
      (d : Disk) (i : ℕ) (previous : Bytes) (segments : List (SegmentInfo F64))
      (contents : List Bytes)
      → AreStored fl t d i previous segments contents
      → read_chunks fl t i segments d ≡ ok (indexed i contents)
  unfolding read_chunks open_chunk
  AreStored-read_chunks d i previous [] [] st = refl
  AreStored-read_chunks d i previous [] (content ∷ contents) st = elim st [ ]
  AreStored-read_chunks d i previous (s ∷ rest) [] st = elim st [ ]
  AreStored-read_chunks d i previous (s ∷ rest) (content ∷ contents) st =
      let ih = AreStored-read_chunks d (suc i) _ rest contents st.1 in
      rw (
        st.0.name,
        check_name-chunk_filename i,
        st.0.found,
        take-all (max_stored_chunk_bytes + 1) content (omega (arith, st.0.bound)),
        within_sound max_stored_chunk_bytes (length content) st.0.bound,
        add-one i,
        ih,
      )

  pub IsValid-read_archive :
      (shown : Text → Text) (d : Disk) (v : IsValid fl t d)
      → read_archive fl t shown d ≡ ok (v.manifest, indexed 0 v.contents)
  unfolding read_archive
  IsValid-read_archive shown d v = rw (
    HasManifest-read_manifest fl t shown d v.manifest v.sig v.has_manifest,
    AreStored-read_chunks d 0 (genesis t.blake3) v.manifest.segments v.contents v.stored,
  )

  contents_same :
      ToolsLaws t
      → (d e : Disk) (segments others : List (SegmentInfo F64)) (xs ys : List Bytes)
      → AreStored fl t d 0 (genesis t.blake3) segments xs
      → AreStored fl t e 0 (genesis t.blake3) others ys
      → last_continuity (t.hex (genesis t.blake3)) segments
        ≡ last_continuity (t.hex (genesis t.blake3)) others
      → (xs ≡ ys) ⊎ Collision t.blake3
  contents_same laws d e segments others xs ys sx sy same =
      let seed = genesis t.blake3 in
      let left =
        last_continuity-tip_from d 0 (t.hex seed) seed segments xs (laws.decode-hex seed) sx in
      let right =
        last_continuity-tip_from e 0 (t.hex seed) seed others ys (laws.decode-hex seed) sy in
      let digests = map-segment_hash-IsDigest t.blake3 laws.length-blake3 in
      elim (tip_from-injective t.blake3 laws.length-blake3 _ _ (digests xs) (digests ys)
        (cc (left, right, same))) [
          | inl p ↦ map-segment_hash-injective t.blake3 xs ys p
          | inr c ↦ inr c
        ]

  -- An archive that `validate_archive` accepts is read by `read_archive`: with the manifest that the
  -- file holds, and for chunks the contents, numbered from 0, that its segments describe.
  pub validate_archive-read_archive :
      ToolsLaws t
      → (shown : Text → Text) (d : Disk) → validate_archive fl t shown d ≡ ok tt
      → (m : TrstManifest F64) × (sig : Bytes) × (contents : List Bytes) × (read_archive fl t shown
            d
          ≡ ok (m, indexed 0 contents))
        × HasManifest fl t d m sig
        × AreStored fl t d 0 (genesis t.blake3) m.segments contents
  validate_archive-read_archive laws shown d h =
      let v = (validate_archive_iff fl t laws shown d).0 h in
      (v.manifest, v.sig, v.contents, IsValid-read_archive shown d v, v.has_manifest, v.stored)

  -- Two archives that `validate_archive` accepts and whose manifests end in the same continuity text
  -- (that of genesis for no segment) give the same chunks by `read_archive`, in the same order and
  -- number, or the proof holds two different messages with one digest.
  pub validate_archive_tamper_evident :
      ToolsLaws t
      → (shown : Text → Text) (d e : Disk) (m n : TrstManifest F64) (xs ys : List (ℕ × Bytes))
      → validate_archive fl t shown d ≡ ok tt
      → validate_archive fl t shown e ≡ ok tt
      → read_archive fl t shown d ≡ ok (m, xs)
      → read_archive fl t shown e ≡ ok (n, ys)
      → last_continuity (t.hex (genesis t.blake3)) m.segments
        ≡ last_continuity (t.hex (genesis t.blake3)) n.segments
      → (xs ≡ ys) ⊎ Collision t.blake3
  validate_archive_tamper_evident laws shown d e m n xs ys vd ve rd re same =
      let v = (validate_archive_iff fl t laws shown d).0 vd in
      let w = (validate_archive_iff fl t laws shown e).0 ve in
      let left = sym (IsValid-read_archive shown d v) ∙ rd in
      let right = sym (IsValid-read_archive shown e w) ∙ re in
      elim (contents_same laws d e v.manifest.segments w.manifest.segments v.contents w.contents
        v.stored w.stored (cc (left, right, same))) [
          | inl p ↦ inl (cc (left, right, p))
          | inr c ↦ inr c
        ]
