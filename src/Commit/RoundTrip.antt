-- ===== src/Commit/RoundTrip.antt =====
-- Commits of crates/omp-core/src/commit.rs, serialized and parsed, with the message plain or sealed.
use open_memory_protocol.Base.Graphic.{IsGraphic}
use open_memory_protocol.Base.{
  ◌++◌, ◌∷◌, [], none, some, Option, ok, err, ◌>>=◌, >>=-eq-ok, map_err, map_err-eq-ok, All,
  All-map, All-append, ◌≢◌, ◌≡◌, refl, arith, List, length, drop-append, ◌<◌,
}
use open_memory_protocol.Base.Bytes.{Bytes, codes, strip_prefix, strip_prefix-append}
use open_memory_protocol.Base.Trim.{
  trim_end_matches, trim_end_matches-append, trim_end_matches-twice, trim_end_matches-Lacks,
}
use open_memory_protocol.Base.Utf8.{IsText, IsAscii-IsText, IsText-append, IsText-is_utf8}
use open_memory_protocol.Error.{OmpError}
use open_memory_protocol.Crypto.Sealing.{
  IsSound, open_sealed-seal, seal-IsBytes, derive_nonce-IsNonce,
}
use open_memory_protocol.Hex
use open_memory_protocol.Hex.RoundTrip.{
  IsBytes, decode-encode, encode-Lacks, encode-IsHexChar, IsHexChar,
}
use open_memory_protocol.Hash.{Hash, IsHash, hex}
use open_memory_protocol.Hash.Text.{hex-IsAscii}
use open_memory_protocol.Crypto.{Primitives, derive_nonce, seal}
use open_memory_protocol.Commit.{
  Author, format, Commit, serialize_parents, serialize_headers, serialize_with_commit_key,
  parse_with_commit_key, seal_message, open_message, encrypted_message_prefix, commit_msg_aad,
}
use open_memory_protocol.Commit.Authors.{IsAuthor}
use open_memory_protocol.Commit.Lines.{
  IsCommit, read_headers-serialize_headers, serialize_headers-append,
}

ascii-append : (s t : Bytes) → All (λ c. c < 128) s → IsText t → IsText (s ++ t)
ascii-append s t h = IsText-append s t (IsAscii-IsText s h)

hex_line : (h : Hash) (rest : Bytes) → IsHash h → IsText rest → IsText (hex h ++ rest)
hex_line h rest g = ascii-append (hex h) rest (hex-IsAscii h g)

format-IsText : (a : Author) → IsAuthor a → IsText (format a)
unfolding format
format-IsText a g = IsText-append a.name _ g.name_text (
    ascii-append (codes " <") _ (omega arith) (
      IsText-append a.email _ g.email_text (
        ascii-append (codes "> ") a.timestamp (omega arith) (
          IsAscii-IsText a.timestamp
            (All-map IsGraphic (λ c. c < 128) (λ c q. omega arith) a.timestamp g.graphic)))))

serialize_parents-IsText : (ps : List Hash) → All IsHash ps → IsText (serialize_parents ps)
unfolding serialize_parents
serialize_parents-IsText [] _ = IsAscii-IsText [] tt
serialize_parents-IsText (p ∷ ps) (q, qs) =
    IsText-append (codes "parent " ++ hex p) (10 ∷ serialize_parents ps)
      (ascii-append (codes "parent ") (hex p) (omega arith)
        (IsAscii-IsText (hex p) (hex-IsAscii p q)))
      (ascii-append (10 ∷ []) (serialize_parents ps) (omega arith) (serialize_parents-IsText ps qs))

serialize_headers-IsText :
    (c : Commit) (rest : Bytes) → IsCommit c → IsText rest → IsText (serialize_headers c rest)
unfolding serialize_headers
serialize_headers-IsText c rest g t =
    IsText-append (codes "tree " ++ hex c.tree) _
      (ascii-append (codes "tree ") (hex c.tree) (omega arith)
        (IsAscii-IsText (hex c.tree) (hex-IsAscii c.tree g.tree_hash)))
      (ascii-append (10 ∷ []) _ (omega arith) (
        IsText-append (serialize_parents c.parents) _
          (serialize_parents-IsText c.parents g.parent_hashes)
          (IsText-append (codes "author " ++ format c.author) _
            (ascii-append (codes "author ") (format c.author) (omega arith)
              (format-IsText c.author g.author_line))
            (ascii-append (10 ∷ 10 ∷ []) rest (omega arith) t))))

-- What parsing does with the body that stands after the headers of a commit.
parse-body :
    (p : Primitives) (key : Option Bytes) (c : Commit) (body : Bytes)
    → IsCommit c
    → IsText body
    → trim_end_matches 10 body ≡ body
    → parse_with_commit_key p key (serialize_headers c (body ++ 10 ∷ [])) ≡ (
        open_message p key body (strip_prefix encrypted_message_prefix body) >>= λ message.
        ok (record c { message = message }))
unfolding parse_with_commit_key
parse-body p key c body g t e =
    let rest = body ++ 10 ∷ [] in
    rw (
      IsText-is_utf8 _ (
          serialize_headers-IsText c rest g
            (IsText-append body (10 ∷ []) t (IsAscii-IsText (10 ∷ []) (omega arith)))),
      read_headers-serialize_headers c rest g,
      serialize_headers-append c rest,
      drop-append (serialize_headers c []) rest (length (serialize_headers c [])) refl,
      trim_end_matches-append 10 body,
      e,
    )

sealed_body :
    (sealed : Bytes)
    → IsBytes sealed
    → IsText (encrypted_message_prefix ++ Hex.encode sealed)
      × (trim_end_matches 10 (encrypted_message_prefix ++ Hex.encode sealed)
          ≡ encrypted_message_prefix ++ Hex.encode sealed)
sealed_body sealed h =
    let ascii =
      All-map IsHexChar (λ c. c < 128) (λ c q. omega arith) _ (encode-IsHexChar sealed h) in
    (
      ascii-append encrypted_message_prefix _ (omega arith) (IsAscii-IsText _ ascii),
      trim_end_matches-Lacks 10 _ (
          All-append (λ c. c ≢ 10) encrypted_message_prefix _ (omega arith)
            (encode-Lacks 10 sealed (omega arith) h)),
    )

pub parse-serialize_plain :
    (p : Primitives) (key : Option Bytes) (c : Commit) (bytes : Bytes)
    → IsCommit c
    → IsText (trim_end_matches 10 c.message)
    → strip_prefix encrypted_message_prefix (trim_end_matches 10 c.message) ≡ none
    → serialize_with_commit_key p none c ≡ ok bytes
    → parse_with_commit_key p key bytes ≡ ok (record c { message = trim_end_matches 10 c.message })
unfolding serialize_with_commit_key open_message
parse-serialize_plain p key c bytes g t n h =
    let f : serialize_headers c (trim_end_matches 10 c.message ++ 10 ∷ []) ≡ bytes = cc h in
    rw (
      ← f,
      parse-body p key c (trim_end_matches 10 c.message) g t (trim_end_matches-twice 10 c.message),
      n,
    )

module _ (p : Primitives) (sound : IsSound p) (key : Bytes) where
  seal_message-opens :
      (message body : Bytes)
      → IsText message
      → IsBytes message
      → seal_message p key message ≡ ok body
      → (sealed : Bytes) × ((body ≡ encrypted_message_prefix ++ Hex.encode sealed)
          × IsBytes sealed
          × (open_message p (some key) body (some (Hex.encode sealed)) ≡ ok message))
  unfolding seal_message open_message
  seal_message-opens message body text bytes h =
      let (nonce, d, h₁) = >>=-eq-ok (derive_nonce p key (codes "commit-msg") message) _ h in
      let (sealed, e, h₂) =
        >>=-eq-ok (map_err (λ _. OmpError.internal) (seal p key nonce commit_msg_aad message)) _
          h₁ in
      let s = map_err-eq-ok (λ _. OmpError.internal) (seal p key nonce commit_msg_aad message) e in
      let (len, nb) = derive_nonce-IsNonce p sound key _ message nonce d in
      let sb = seal-IsBytes p sound key nonce commit_msg_aad message sealed nb bytes s in
      (
        sealed,
        (
          cc h₂,
          sb,
          rw (
            decode-encode sealed sb,
            open_sealed-seal p sound key nonce commit_msg_aad message sealed len s,
            IsText-is_utf8 message text,
          ),
        ),
      )

  -- A commit serialized under a commit key parses under it to the commit with the line feeds at the end
  -- of its message left out, whatever the message, and is refused as unauthorized without a key.
  pub parse-serialize_with_commit_key :
      (c : Commit) (bytes : Bytes)
      → IsCommit c
      → IsText (trim_end_matches 10 c.message)
      → IsBytes (trim_end_matches 10 c.message)
      → serialize_with_commit_key p (some key) c ≡ ok bytes
      → (parse_with_commit_key p (some key) bytes
          ≡ ok (record c { message = trim_end_matches 10 c.message }))
        × (parse_with_commit_key p none bytes ≡ err OmpError.unauthorized)
  unfolding serialize_with_commit_key
  parse-serialize_with_commit_key c bytes g text isb h =
      let m = trim_end_matches 10 c.message in
      let (body, s, h₁) = >>=-eq-ok (seal_message p key m) _ h in
      let (sealed, (e, sb, o)) = seal_message-opens m body text isb s in
      let f : serialize_headers c (body ++ 10 ∷ []) ≡ bytes = cc h₁ in
      let (t, r) = sealed_body sealed sb in
      let strip : strip_prefix encrypted_message_prefix body ≡ some (Hex.encode sealed) =
        (rw e (strip_prefix-append encrypted_message_prefix (Hex.encode sealed))) in
      rw (← f) (
        rw (parse-body p (some key) c body g (rw e t) (rw e r), strip, o),
        rw (parse-body p none c body g (rw e t) (rw e r), strip) (unfold open_message in refl),
      )
