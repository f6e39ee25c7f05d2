-- ===== src/Archive/Files.antt =====
-- crates/core/src/archive.rs: a folder's files after they are written, and the names of chunk files.
use mathlib.Core.List.{append_cancel_right}
use sealedge.Base.{
  ℕ, suc, ◌<◌, ◌≡◌, refl, sym, ◌∙◌, ◌≢◌, List, [], ◌∷◌, Bytes, Text, str, false, some, bytes_eq,
  bytes_eq_iff, bytes_eq_refl, Bool-cases, inl, inr, padded, padded-injective, if◌then◌else◌, arith,
  Has, All,
}
use sealedge.Archive.{Files, find, put, chunk_filename}

bytes_ne : (a b : Bytes) → a ≢ b → bytes_eq a b ≡ false
bytes_ne a b ne = elim (Bool-cases (bytes_eq a b)) [
  | inl same ↦ absurd (ne ((bytes_eq_iff a b).0 same))
  | inr other ↦ other
]

pub find-put :
    (n name : Text) (content : Bytes) (files : Files)
    → find n (put name content files) ≡ (if bytes_eq name n then some content else find n files)
unfolding find put
find-put n name content [] = refl
find-put n name content ((m, c) ∷ rest) = elim (Bool-cases (bytes_eq m name)) [
  | inl same ↦
      let e = (bytes_eq_iff m name).0 same in
      elim (Bool-cases (bytes_eq name n)) [
        | inl hit ↦ rw (same, hit)
        | inr miss ↦ rw (same, e, miss)
      ]
  | inr other ↦ elim (Bool-cases (bytes_eq m n)) [
    | inl hit ↦
        let differ : name ≢ n =
          λ p. absurd (cc (other, (bytes_eq_iff m name).1 ((bytes_eq_iff m n).0 hit ∙ sym p))) in
        rw (other, hit, bytes_ne name n differ)
    | inr miss ↦ rw (other, miss) (find-put n name content rest)
  ]
]

pub find-put-same :
    (name : Text) (content : Bytes) (files : Files)
    → find name (put name content files) ≡ some content
find-put-same name content files = find-put name name content files ∙ rw (bytes_eq_refl name)

pub find-put-other :
    (n name : Text) (content : Bytes) (files : Files)
    → name ≢ n
    → find n (put name content files) ≡ find n files
find-put-other n name content files ne = find-put n name content files ∙ rw (bytes_ne name n ne)

-- Two positions have two files.
pub chunk_filename-injective : (i j : ℕ) → chunk_filename i ≡ chunk_filename j → i ≡ j
unfolding chunk_filename
chunk_filename-injective i j e =
    padded-injective i j (append_cancel_right (padded i) (padded j) (str ".bin") e)

-- The chunk folder after the chunks are written, from position `i` on.
abbrev pub put_chunks : ℕ → List Bytes → Files → Files
put_chunks i [] files = files
put_chunks i (chunk ∷ rest) files = put_chunks (suc i) rest (put (chunk_filename i) chunk files)

-- Files of earlier positions stay as they are.
pub find-put_chunks :
    (j i : ℕ) (contents : List Bytes) (files : Files)
    → j < i
    → find (chunk_filename j) (put_chunks i contents files) ≡ find (chunk_filename j) files
find-put_chunks j i [] files h = refl
find-put_chunks j i (chunk ∷ rest) files h =
    find-put_chunks j (suc i) rest (put (chunk_filename i) chunk files) (omega arith)
    ∙ find-put-other (chunk_filename j) (chunk_filename i) chunk files
        (λ e. omega (arith, chunk_filename-injective i j e))

-- The names of a folder's files.
abbrev pub NamesAmong : List Text → Files → Type 0
NamesAmong names files = All (λ entry. Has (entry.0) names) files

put-NamesAmong :
    (names : List Text) (name : Text) (content : Bytes) (files : Files)
    → Has name names
    → NamesAmong names files
    → NamesAmong names (put name content files)
unfolding put
put-NamesAmong names name content [] h a = (h, tt)
put-NamesAmong names name content ((m, c) ∷ rest) h a = elim (Bool-cases (bytes_eq m name)) [
  | inl same ↦ rw same (h, a.1)
  | inr other ↦ rw other (a.0, put-NamesAmong names name content rest h a.1)
]

abbrev pub filenames : ℕ → List Bytes → List Text
filenames i [] = []
filenames i (chunk ∷ rest) = chunk_filename i ∷ filenames (suc i) rest

-- Each file is one that was there or one that was written.
pub put_chunks-NamesAmong :
    (names : List Text) (i : ℕ) (contents : List Bytes) (files : Files)
    → All (λ name. Has name names) (filenames i contents)
    → NamesAmong names files
    → NamesAmong names (put_chunks i contents files)
put_chunks-NamesAmong names i [] files h a = a
put_chunks-NamesAmong names i (chunk ∷ rest) files h a =
    put_chunks-NamesAmong names (suc i) rest (put (chunk_filename i) chunk files) h.1
      (put-NamesAmong names (chunk_filename i) chunk files h.0 a)
