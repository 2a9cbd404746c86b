-- ===== src/Security/Tokens/RoundTrip.antt =====
-- packages/security/src/index.ts: a token that was sealed is opened again.
use webprobe.Base.{
  ℕ, suc, ◌≤◌, ◌≡◌, refl, true, false, some, List, [], ◌∷◌, ◌++◌, all, arith, length, eqb, ok,
}
use webprobe.Base.Text.{Text, codes, text_key, is_empty, split_on}
use webprobe.Security.Tokens.{
  Bytes, IsBytes, is_base64url, Crypto, IsSound, is_report_share_token, dot, report_token_key,
  sealed, encrypt_report_share_token, checked_token, open_parts, open_list,
  decrypt_report_share_token,
}

-- A text of the alphabet has no dot, so it is one part.
split_on_one : (s : Text) → all is_base64url s ≡ true → split_on b'.' s ≡ s ∷ []
unfolding split_on
split_on_one [] h = refl
split_on_one (c ∷ s) h =
    let plain : eqb c b'.' ≡ false = ground (arith, h) in
    let rest : split_on b'.' s ≡ s ∷ [] = split_on_one s (ground (arith, h)) in
    rw (split_on, rest, plain) refl

split_on_first :
    (a s p : Text) (ps : List Text)
    → all is_base64url a ≡ true
    → split_on b'.' s ≡ p ∷ ps
    → split_on b'.' (a ++ (dot ++ s)) ≡ a ∷ p ∷ ps
unfolding split_on
split_on_first [] s p ps h e = rw (split_on, e) refl
split_on_first (c ∷ a) s p ps h e =
    let plain : eqb c b'.' ≡ false = ground (arith, h) in
    let rest : split_on b'.' (a ++ (dot ++ s)) ≡ a ∷ p ∷ ps =
      split_on_first a s p ps (ground (arith, h)) e in
    rw (split_on, rest, plain) refl

given : (s : Text) (n : ℕ) → suc n ≤ length s → is_empty s ≡ false
given [] n h = ground (arith, h)
given (c ∷ s) n h = refl

-- What a valid token is made of.
token_alphabet :
    (token : Text)
    → is_report_share_token token ≡ true
    → (all is_base64url token ≡ true) × (length token ≡ 43)
unfolding is_report_share_token
token_alphabet token valid = (ground (arith, valid), ground (arith, valid))

module _ (c : Crypto) (sound : IsSound c) where
  key_of_secret :
      (secret : Text) → 32 ≤ length secret → report_token_key c secret ≡ ok (c.sha256 secret)
  unfolding report_token_key
  key_of_secret secret strong = ground (arith, strong)

  checked_plain :
      (token : Text)
      → is_report_share_token token ≡ true
      → checked_token c (some (c.utf8 token)) ≡ ok token
  checked_plain token valid =
      let (alphabet, long) = token_alphabet token valid in
      rw (sound.from_utf8-utf8 token alphabet, valid) refl

  -- The parts of a sealed text open to the plain text.
  open_parts-encrypt :
      (iv token secret : Text)
      → IsBytes iv
      → length iv ≡ 12
      → is_report_share_token token ≡ true
      → 32 ≤ length secret
      → let (ciphertext, tag) = c.encrypt (c.sha256 secret) iv (c.utf8 token) in
        open_parts c (c.encode iv) (c.encode ciphertext) (c.encode tag) secret ≡ ok token
  unfolding open_parts report_token_key is_report_share_token
  open_parts-encrypt iv token secret bytes long valid strong =
      let key : Bytes = c.sha256 secret in
      let p : Bytes = c.utf8 token in
      let (alphabet, size) = token_alphabet token valid in
      let plain : IsBytes p = sound.utf8_bytes token alphabet in
      let iv_again : c.decode (c.encode iv) ≡ iv = sound.decode-encode iv bytes in
      let text_again : c.decode (c.encode (c.encrypt key iv p).0) ≡ (c.encrypt key iv p).0 =
        sound.decode-encode _ (sound.ciphertext_bytes key iv p plain) in
      let tag_again : c.decode (c.encode (c.encrypt key iv p).1) ≡ (c.encrypt key iv p).1 =
        sound.decode-encode _ (sound.tag_bytes key iv p) in
      let long_text : eqb (length (c.encrypt key iv p).0) 0 ≡ false =
        ground (arith, sound.ciphertext_length key iv p, sound.utf8_length token, size) in
      let long_tag : eqb (length (c.encrypt key iv p).1) 16 ≡ true =
        ground (arith, sound.tag_length key iv p) in
      let long_iv : eqb (length iv) 12 ≡ true = ground (arith, long) in
      rw
        (
          open_parts,
          iv_again,
          text_again,
          tag_again,
          long_iv,
          long_tag,
          long_text,
          key_of_secret secret strong,
          sound.decrypt-encrypt key iv p plain,
        )
        (checked_plain token valid)

  -- A valid token is sealed under a secret of 32 characters or more, with any twelve bytes, and the
  -- sealed text opens to the same token under the same secret.
  pub decrypt-encrypt_report_share_token :
      (iv token secret : Text)
      → IsBytes iv
      → length iv ≡ 12
      → is_report_share_token token ≡ true
      → 32 ≤ length secret
      → (encrypted : Text) × (encrypt_report_share_token c iv token secret ≡ ok encrypted)
        × (decrypt_report_share_token c encrypted secret ≡ ok token)
  unfolding encrypt_report_share_token report_token_key decrypt_report_share_token open_list
  decrypt-encrypt_report_share_token iv token secret bytes long valid strong =
      let key : Bytes = c.sha256 secret in
      let p : Bytes = c.utf8 token in
      let box : Bytes × Bytes = c.encrypt key iv p in
      let (alphabet, size) = token_alphabet token valid in
      let plain : IsBytes p = sound.utf8_bytes token alphabet in
      let parts : split_on b'.' (sealed c iv box)
          ≡ codes "v1" ∷ c.encode iv ∷ c.encode box.0 ∷ c.encode box.1 ∷ [] =
        split_on_first (codes "v1") _ _ _ refl (
          split_on_first (c.encode iv) _ _ _ (sound.encode_alphabet iv bytes) (
            split_on_first (c.encode box.0) _ _ _
              (sound.encode_alphabet box.0 (sound.ciphertext_bytes key iv p plain))
              (split_on_one (c.encode box.1)
                (sound.encode_alphabet box.1 (sound.tag_bytes key iv p))))) in
      let iv_given : is_empty (c.encode iv) ≡ false =
        given _ 0 (omega (arith, sound.encode_length iv, long)) in
      let text_given : is_empty (c.encode box.0) ≡ false = given _ 0 (
        omega (
          arith,
          sound.encode_length box.0,
          sound.ciphertext_length key iv p,
          sound.utf8_length token,
          size,
        )) in
      let tag_given : is_empty (c.encode box.1) ≡ false =
        given _ 0 (omega (arith, sound.encode_length box.1, sound.tag_length key iv p)) in
      (
        sealed c iv box,
        rw (encrypt_report_share_token, valid, key_of_secret secret strong) refl,
        rw (decrypt_report_share_token, parts)
            (rw (open_list, iv_given, text_given, tag_given)
              (open_parts-encrypt iv token secret bytes long valid strong)),
      )
