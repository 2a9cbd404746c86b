-- ===== src/Security/Tokens/Tests.antt =====
-- A witness of the round trip: a toy cipher that hides nothing, and bytes spelled by two letters each.
use webprobe.Base.{
  ℕ, ◌+◌, ◌-◌, ◌*◌, ◌/◌, ◌%◌, ◌≤◌, ◌<◌, ◌≡◌, refl, true, some, [], ◌∷◌, all, arith, length, ok,
}
use webprobe.Base.Text.{Text, codes}
use webprobe.Security.Tokens.{
  Bytes, IsBytes, Crypto, IsSound, is_base64url, is_report_share_token, encrypt_report_share_token,
  decrypt_report_share_token,
}
use webprobe.Security.Tokens.RoundTrip.{decrypt-encrypt_report_share_token}

abbrev spell : Bytes → Text
spell [] = []
spell (b ∷ bs) = (97 + b / 16) ∷ (97 + b % 16) ∷ spell bs

abbrev read : Text → Bytes
read [] = []
read (c ∷ []) = []
read (c ∷ d ∷ s) = (16 * (c - 97) + (d - 97)) ∷ read s

abbrev zeros : Bytes
zeros = 0 ∷ 0 ∷ 0 ∷ 0 ∷ 0 ∷ 0 ∷ 0 ∷ 0 ∷ 0 ∷ 0 ∷ 0 ∷ 0 ∷ 0 ∷ 0 ∷ 0 ∷ 0 ∷ []

abbrev toy : Crypto
toy = record {
  sha256 = λ s. s;
  encrypt = λ key iv p. (p, zeros);
  decrypt = λ key iv text tag. some text;
  encode = spell;
  decode = read;
  utf8 = λ s. s;
  from_utf8 = λ b. b;
}

read-spell : (b : Bytes) → IsBytes b → read (spell b) ≡ b
read-spell [] h = refl
read-spell (b ∷ bs) (small, h) =
    let same : 16 * (97 + b / 16 - 97) + (97 + b % 16 - 97) ≡ b = omega arith in
    rw (same, read-spell bs h) refl

letter : (n : ℕ) → n < 16 → is_base64url (97 + n) ≡ true
letter n h = ground (arith, h)

spell_alphabet : (b : Bytes) → IsBytes b → all is_base64url (spell b) ≡ true
spell_alphabet [] h = refl
spell_alphabet (b ∷ bs) (small, h) =
    rw (letter (b / 16) (omega (arith, small)), letter (b % 16) (omega arith)) (spell_alphabet bs h)

length-spell : (b : Bytes) → length b ≤ length (spell b)
length-spell [] = omega arith
length-spell (b ∷ bs) = omega (arith, length-spell bs)

alphabet-IsBytes : (s : Text) → all is_base64url s ≡ true → IsBytes s
alphabet-IsBytes [] h = tt
alphabet-IsBytes (c ∷ s) h = (ground (arith, h), alphabet-IsBytes s (ground (arith, h)))

toy-IsSound : IsSound toy
toy-IsSound = record {
  decrypt-encrypt = λ key iv p h. refl;
  ciphertext_bytes = λ key iv p h. h;
  tag_bytes = λ key iv p. omega arith;
  ciphertext_length = λ key iv p. refl;
  tag_length = λ key iv p. refl;
  decode-encode = read-spell;
  encode_alphabet = spell_alphabet;
  encode_length = length-spell;
  from_utf8-utf8 = λ s h. refl;
  utf8_bytes = alphabet-IsBytes;
  utf8_length = λ s. omega arith;
}

abbrev iv : Bytes
iv = 1 ∷ 2 ∷ 3 ∷ 4 ∷ 5 ∷ 6 ∷ 7 ∷ 8 ∷ 9 ∷ 10 ∷ 11 ∷ 255 ∷ []

abbrev token : Text
token = codes "abcdefghijklmnopqrstuvwxyzABCDEFGHIJKLMNO_-"

abbrev secret : Text
secret = codes "0123456789abcdef0123456789abcdef"

token_valid : is_report_share_token token ≡ true
unfolding is_report_share_token
token_valid = refl

decrypt-encrypt_report_share_token_example :
    (encrypted : Text) × (encrypt_report_share_token toy iv token secret ≡ ok encrypted)
    × (decrypt_report_share_token toy encrypted secret ≡ ok token)
decrypt-encrypt_report_share_token_example =
    decrypt-encrypt_report_share_token toy toy-IsSound iv token secret (omega arith) refl
      token_valid (omega arith)
