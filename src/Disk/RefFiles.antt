-- ===== src/Disk/RefFiles.antt =====
-- The ref files of crates/omp-core/src/store/disk.rs.
use open_memory_protocol.Base.{
  map_err, map_err-eq-ok, >>=-eq-ok, reject_if-eq-ok, not, false, none, ◌∷◌, [], ◌++◌, inr, inl,
  if◌then◌else◌, Bool-cases, Option, some, ok, err, Bool, ◌>>=◌, List, All-map, ◌≡◌, ◌≢◌, refl, sym,
  ap, ◌∙◌, arith,
}
use open_memory_protocol.Base.Bytes.{codes, Bytes, beq, split}
use open_memory_protocol.Base.Graphic.{IsGraphic, trim_line_graphic}
use open_memory_protocol.Base.Trim.{trim}
use open_memory_protocol.Base.Utf8.{is_utf8, IsText-append, IsAscii-IsText, IsText-is_utf8}
use open_memory_protocol.Base.SortedMap
use open_memory_protocol.Base.SortedMap.{SortedMap, get-insert, get-remove}
use open_memory_protocol.Error.{OmpError}
use open_memory_protocol.Hex.RoundTrip.{IsHexChar}
use open_memory_protocol.Hash.{Hash, IsHash, hex, from_str}
use open_memory_protocol.Hash.Text.{
  hex-from_str, from_str-hex, hex-IsAscii, hex-length, hex-IsHexChar,
}
use open_memory_protocol.Disk.Objects.{IsIntact}
use open_memory_protocol.Disk.{
  file_at, steps_of, join_steps, Codecs, object_path, get, Files, is_bad_ref, ref_path, parse_ref,
  read_ref, write_ref, delete_ref,
}

hex-ne : (h : Hash) → IsHash h → hex h ≢ []
hex-ne h g e = (let len = rw e at (hex-length h g) in omega arith)

parse_written : (h : Hash) → IsHash h → parse_ref (some (hex h ++ 10 ∷ [])) ≡ ok (some h)
parse_written h g =
    let graphic = All-map IsHexChar IsGraphic (λ c q. omega arith) (hex h) (hex-IsHexChar h g) in
    let text =
      IsText-append (hex h) (10 ∷ []) (IsAscii-IsText (hex h) (hex-IsAscii h g))
        (IsAscii-IsText (10 ∷ []) (omega arith)) in
    rw
      (
        IsText-is_utf8 (hex h ++ 10 ∷ []) text,
        trim_line_graphic (hex h) (hex-ne h g) graphic,
        from_str-hex h g,
      )
      refl

-- Reading a ref where another map of files has at its file what a change at `path` leaves there.
read_ref_after :
    (files files' : Files) (path other q : Bytes) (folder : Bool) (bytes : Option Bytes)
    → ref_path other ≡ ok (q, folder)
    → SortedMap.get q files' ≡ (if beq path q then bytes else SortedMap.get q files)
    → read_ref files' other
      ≡ (if beq path q then (file_at folder bytes >>= parse_ref) else read_ref files other)
unfolding read_ref
read_ref_after files files' path other q folder bytes p e = elim (Bool-cases (beq path q)) [
  | inl y ↦ rw (y, p, rw y at e) refl
  | inr d ↦ rw (d, p, rw d at e) refl
]

pub read_ref-write_ref :
    (files files' : Files) (name other path q : Bytes) (f folder : Bool) (h : Hash)
    → IsHash h
    → ref_path name ≡ ok (path, f)
    → ref_path other ≡ ok (q, folder)
    → write_ref files name h ≡ ok files'
    → read_ref files' other ≡ (
        if beq path q
        then (if folder then err OmpError.io else ok (some h))
        else read_ref files other)
unfolding write_ref
read_ref-write_ref files files' name other path q f folder h g p p' e =
    let (_, e₁) = reject_if-eq-ok f OmpError.io _ (rw p at e) in
    let same : SortedMap.insert path (hex h ++ 10 ∷ []) files ≡ files' = cc e₁ in
    let bytes = some (hex h ++ 10 ∷ []) in
    let written : (file_at folder bytes >>= parse_ref)
        ≡ (if folder then err OmpError.io else ok (some h)) =
      (elim (Bool-cases folder) [ inl y ↦ rw y refl | inr d ↦ rw d (parse_written h g) ]) in
    read_ref_after files files' path other q folder bytes p'
      (rw (← same) (get-insert path q (hex h ++ 10 ∷ []) files))
    ∙ ap (λ x. if beq path q then x else read_ref files other) written

-- After a ref is deleted, reading any name that leads to the same file finds nothing, and reading any
-- name that leads to another file gives what it gave before.
pub read_ref-delete_ref :
    (files files' : Files) (name other path q : Bytes) (f folder : Bool)
    → ref_path name ≡ ok (path, f)
    → ref_path other ≡ ok (q, folder)
    → delete_ref files name ≡ ok files'
    → read_ref files' other ≡ (if beq path q then ok none else read_ref files other)
unfolding delete_ref
read_ref-delete_ref files files' name other path q f folder p p' e =
    let (_, _, e₁) = >>=-eq-ok (file_at f (SortedMap.get path files)) _ (rw p at e) in
    let same : SortedMap.remove path files ≡ files' = cc e₁ in
    read_ref_after files files' path other q folder none p' (rw (← same) (get-remove path q files))

parse_ref-IsHash : (bytes : Option Bytes) (h : Hash) → parse_ref bytes ≡ ok (some h) → IsHash h
parse_ref-IsHash none h e = absurd (cc e)
parse_ref-IsHash (some bytes) h e =
    let (_, e₁) = reject_if-eq-ok (not (is_utf8 bytes)) OmpError.io _ e in
    let (k, p, e₂) = >>=-eq-ok (map_err (λ _. OmpError.corrupt) (from_str (trim bytes))) _ e₁ in
    let same : k ≡ h = cc e₂ in
    let parsed = map_err-eq-ok (λ _. OmpError.corrupt) (from_str (trim bytes)) p in
    rw (← same) ((hex-from_str (trim bytes) k parsed).0)

starts_apart :
    (k : Hash) (parts : List Bytes)
    → beq (join_steps (codes "refs" ∷ parts)) (object_path k) ≡ false
unfolding object_path beq
starts_apart k [] = refl
starts_apart k (_ ∷ _) = refl

-- A ref under `refs/` is the file of no object.
refs_apart :
    (k : Hash) (rest path : Bytes) (folder : Bool)
    → ref_path (codes "refs/" ++ rest) ≡ ok (path, folder)
    → beq path (object_path k) ≡ false
unfolding ref_path split beq
refs_apart k rest path folder e =
    let (_, e₁) = reject_if-eq-ok (is_bad_ref (codes "refs/" ++ rest)) OmpError.invalid_path _ e in
    let same : join_steps (codes "refs" ∷ steps_of (split b'/' rest)) ≡ path = cc e₁ in
    rw (← same) (starts_apart k (steps_of (split b'/' rest)))

-- A hash that is read from a ref has 32 bytes.
pub read_ref-IsHash :
    (files : Files) (name : Bytes) (h : Hash) → read_ref files name ≡ ok (some h) → IsHash h
unfolding read_ref
read_ref-IsHash files name h e =
    let ((path, folder), _, e₁) = >>=-eq-ok (ref_path name) _ e in
    let (bytes, _, e₂) = >>=-eq-ok (file_at folder (SortedMap.get path files)) _ e₁ in
    parse_ref-IsHash bytes h e₂

-- Writing a ref under `refs/` leaves every object as it was.
pub get-write_ref :
    (z : Codecs) (files files' : Files) (k h : Hash) (rest : Bytes)
    → write_ref files (codes "refs/" ++ rest) h ≡ ok files'
    → get z files' k ≡ get z files k
unfolding write_ref get
get-write_ref z files files' k h rest e =
    let ((path, folder), p, e₁) = >>=-eq-ok (ref_path (codes "refs/" ++ rest)) _ e in
    let (_, e₂) = reject_if-eq-ok folder OmpError.io _ e₁ in
    let f : SortedMap.insert path (hex h ++ 10 ∷ []) files ≡ files' = cc e₂ in
    let apart = refs_apart k rest path folder p in
    rw (← f, get-insert path (object_path k) (hex h ++ 10 ∷ []) files, apart) refl

-- Writing a ref under `refs/` keeps every readable object under the hash of its frame.
pub write_ref-IsIntact :
    (z : Codecs) (files files' : Files) (h : Hash) (rest : Bytes)
    → write_ref files (codes "refs/" ++ rest) h ≡ ok files'
    → IsIntact z files
    → IsIntact z files'
write_ref-IsIntact z files files' h rest e intact = record {
  stands = λ k type content g f.
      intact.stands k type content g (sym (get-write_ref z files files' k h rest e) ∙ f);
}
