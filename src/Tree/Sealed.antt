-- ===== src/Tree/Sealed.antt =====
-- Trees whose names are sealed under the tenant's path key.
use open_memory_protocol.Base.{
  ◌<◌, [], ◌∷◌, ◌++◌, none, some, ok, err, >>=-eq-ok, map_err, map_err-eq-ok, All, All-map, ◌≡◌,
  refl, ap, ◌∙◌, arith,
}
use open_memory_protocol.Base.Bytes.{Bytes, codes, beq_refl, lines, lines-append, strip_cr}
use open_memory_protocol.Base.Utf8.{IsText, IsAscii-IsText, IsText-append, IsText-is_utf8}
use open_memory_protocol.Base.SortedMap.{SortedMap, IsSorted, insert_all_of_IsSorted}
use open_memory_protocol.Error.{OmpError}
use open_memory_protocol.Hash.{IsHash}
use open_memory_protocol.Hex
use open_memory_protocol.Hex.RoundTrip.{
  IsBytes, decode-encode, encode-Lacks, encode-IsHexChar, IsHexChar,
}
use open_memory_protocol.Crypto.{Primitives, seal, derive_nonce}
use open_memory_protocol.Crypto.Sealing.{
  IsSound, open_sealed-seal, seal-IsBytes, derive_nonce-IsNonce,
}
use open_memory_protocol.Tree.{
  Entry, Tree, validate_name, open_name, seal_name, serialize_sealed, serialize_with_path_key,
  peek_marker, key_for, parse_with_path_key, encrypted_tree_marker, tree_name_aad,
}
use open_memory_protocol.Tree.RoundTrip.{IsField, Written, parse_entries-Written, Written-IsText}

-- A name that a sealed tree can hold: valid UTF-8, line ends included.
abbrev pub IsSealable : Bytes → Type 0
IsSealable name = (validate_name name ≡ ok tt) × IsText name × IsBytes name

abbrev pub HasSealableEntries : SortedMap Entry → Type 0
HasSealableEntries = All (λ e. IsSealable e.0 × IsHash e.1.hash)

strip_cr_of_IsHexChar : (s : Bytes) → All IsHexChar s → strip_cr s ≡ s
unfolding strip_cr
strip_cr_of_IsHexChar [] _ = refl
strip_cr_of_IsHexChar (c ∷ []) ((p, q), _) = ground arith
strip_cr_of_IsHexChar (c ∷ d ∷ s) (_, h) = ap (λ t. c ∷ t) (strip_cr_of_IsHexChar (d ∷ s) h)

encode-IsField : (b : Bytes) → IsBytes b → IsField (Hex.encode b)
encode-IsField b h = record {
  lacks = encode-Lacks 10 b (omega arith) h;
  ends = strip_cr_of_IsHexChar _ (encode-IsHexChar b h);
  is_text =
      IsAscii-IsText _
        (All-map IsHexChar (λ c. c < 128) (λ c q. omega arith) _ (encode-IsHexChar b h));
}

module _ (p : Primitives) (sound : IsSound p) (key : Bytes) where
  seal_name-opens :
      (name field : Bytes)
      → IsSealable name
      → seal_name p key name ≡ ok field
      → IsField field × (open_name p (some key) field ≡ ok name)
  unfolding seal_name open_name
  seal_name-opens name field (_, text, bytes) h =
      let (nonce, d, h₁) = >>=-eq-ok (derive_nonce p key (codes "tree-name") name) _ h in
      let (sealed, e, h₂) =
        >>=-eq-ok (map_err (λ _. OmpError.internal) (seal p key nonce tree_name_aad name)) _ h₁ in
      let s = map_err-eq-ok (λ _. OmpError.internal) (seal p key nonce tree_name_aad name) e in
      let (len, nb) = derive_nonce-IsNonce p sound key _ name nonce d in
      let sb = seal-IsBytes p sound key nonce tree_name_aad name sealed nb bytes s in
      let f : Hex.encode sealed ≡ field = cc h₂ in
      rw (← f) (
        encode-IsField sealed sb,
        rw (
          decode-encode sealed sb,
          open_sealed-seal p sound key nonce tree_name_aad name sealed len s,
          IsText-is_utf8 name text,
        ),
      )

  serialize_sealed-Written :
      (m : SortedMap Entry) (body : Bytes)
      → HasSealableEntries m
      → serialize_sealed p key m ≡ ok body
      → Written p (some key) m body
  unfolding serialize_sealed
  serialize_sealed-Written [] body _ h = cc
  serialize_sealed-Written ((name, e) ∷ m) body ((n, eh), g) h =
      let (field, s, h₁) = >>=-eq-ok (seal_name p key name) _ h in
      let (rest, r, h₂) = >>=-eq-ok (serialize_sealed p key m) _ h₁ in
      let (good, o) = seal_name-opens name field n s in
      (field, rest, cc h₂, good, eh, o, n.0, serialize_sealed-Written m rest g r)

  marked-IsText : (body : Bytes) → IsText body → IsText (encrypted_tree_marker ++ 10 ∷ body)
  marked-IsText body t =
      IsText-append (encrypted_tree_marker ++ 10 ∷ []) body
        (IsAscii-IsText (encrypted_tree_marker ++ 10 ∷ []) (omega arith)) t

  marked_lines :
      (body : Bytes)
      → lines (encrypted_tree_marker ++ 10 ∷ body) ≡ encrypted_tree_marker ∷ lines body
  marked_lines body =
      lines-append encrypted_tree_marker body (omega arith) ∙ (unfold strip_cr in refl)

  -- A sorted tree whose names are valid UTF-8 texts, serialized with sealed names, parses to itself
  -- under the same path key, and is refused as unauthorized without one.
  pub parse-serialize_with_path_key :
      (t : Tree) (bytes : Bytes)
      → IsSorted t.entries
      → HasSealableEntries t.entries
      → serialize_with_path_key p (some key) t ≡ ok bytes
      → (parse_with_path_key p (some key) bytes ≡ ok t)
        × (parse_with_path_key p none bytes ≡ err OmpError.unauthorized)
  unfolding serialize_with_path_key parse_with_path_key key_for peek_marker
  parse-serialize_with_path_key t bytes sorted good h =
      let (body, s, h₁) = >>=-eq-ok (serialize_sealed p key t.entries) _ h in
      let w = serialize_sealed-Written t.entries body good s in
      let text =
        IsText-is_utf8 _ (marked-IsText body (Written-IsText p (some key) t.entries body w)) in
      let f : encrypted_tree_marker ++ 10 ∷ body ≡ bytes = cc h₁ in
      rw (← f) (
        rw (
          text,
          marked_lines body,
          beq_refl encrypted_tree_marker,
          parse_entries-Written p (some key) t.entries [] body w,
          insert_all_of_IsSorted t.entries sorted,
        ),
        rw (text, marked_lines body, beq_refl encrypted_tree_marker),
      )
