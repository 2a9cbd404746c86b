-- ===== src/Security/Tokens.antt =====
-- packages/security/src/index.ts: the tokens of shared reports, and the secret that they are sealed
-- with. The ciphers, base64url and UTF-8 are a parameter, with the laws that are documented of them.
pub mod RoundTrip
mod Tests
use webprobe.Base.{
  ℕ, ◌≤◌, ◌<◌, ◌≡◌, Bool, true, false, not, ◌&&◌, ◌||◌, Option, none, some, List, [], ◌∷◌, ◌++◌,
  All, all, length, if◌then◌else◌, ◌==◌, eqb, ltb, Result, throw, ok, throw_if, ◌>>◌, ◌>>=◌,
}
use webprobe.Base.Text.{Text, codes, text_key, is_upper, is_lower, is_digit, is_empty, split_on}
use webprobe.Contracts.Products.{trim}

abbrev pub Bytes : Type 0
Bytes = List ℕ

abbrev pub IsBytes : Bytes → Type 0
IsBytes = All (λ b. b < 256)

-- `[A-Za-z0-9_-]`
abbrev pub is_base64url : ℕ → Bool
is_base64url c = is_upper c || is_lower c || is_digit c || eqb c b'_' || eqb c b'-'

pub record Crypto : Type 0 where
  -- `createHash("sha256")` of a text
  pub sha256 : Text → Bytes
  -- AES-256-GCM: the ciphertext with its tag, and back, where the tag is right
  pub encrypt : Bytes → Bytes → Bytes → Bytes × Bytes
  pub decrypt : Bytes → Bytes → Bytes → Bytes → Option Bytes
  -- `toString("base64url")` and `Buffer.from(text, "base64url")`
  pub encode : Bytes → Text
  pub decode : Text → Bytes
  pub utf8 : Text → Bytes
  pub from_utf8 : Bytes → Text

-- What the code relies on.
pub record IsSound (c : Crypto) : Type 0 where
  pub decrypt-encrypt :
      (key iv p : Bytes)
      → IsBytes p
      → c.decrypt key iv (c.encrypt key iv p).0 (c.encrypt key iv p).1 ≡ some p
  pub ciphertext_bytes : (key iv p : Bytes) → IsBytes p → IsBytes (c.encrypt key iv p).0
  pub tag_bytes : (key iv p : Bytes) → IsBytes (c.encrypt key iv p).1
  pub ciphertext_length : (key iv p : Bytes) → length (c.encrypt key iv p).0 ≡ length p
  pub tag_length : (key iv p : Bytes) → length (c.encrypt key iv p).1 ≡ 16
  pub decode-encode : (b : Bytes) → IsBytes b → c.decode (c.encode b) ≡ b
  pub encode_alphabet : (b : Bytes) → IsBytes b → all is_base64url (c.encode b) ≡ true
  pub encode_length : (b : Bytes) → length b ≤ length (c.encode b)
  pub from_utf8-utf8 : (s : Text) → all is_base64url s ≡ true → c.from_utf8 (c.utf8 s) ≡ s
  pub utf8_bytes : (s : Text) → all is_base64url s ≡ true → IsBytes (c.utf8 s)
  pub utf8_length : (s : Text) → length s ≤ length (c.utf8 s)

-- `/^[A-Za-z0-9_-]{43}$/`
pub is_report_share_token : Text → Bool
is_report_share_token value = eqb (length value) 43 && all is_base64url value

abbrev pub dot : Text
dot = codes "."

pub record TokenEnv : Type 0 where
  pub node_env : Option Text
  pub report_token_secret : Option Text
  pub better_auth_secret : Option Text

abbrev pub trimmed : Option Text → Option Text
trimmed none = none
trimmed (some s) = some (trim s)

abbrev pub is_unset : Option Text → Bool
is_unset none = true
is_unset (some s) = is_empty s

-- `===` of texts that may be missing
abbrev pub same_option : Option Text → Option Text → Bool
same_option none none = true
same_option (some s) (some t) = s == t
same_option _ _ = false

abbrev pub or_else : Option Text → Option Text → Option Text
or_else a b = if is_unset a then b else a

abbrev pub long_enough : Option Text → Result Text
long_enough none = throw "Report token secret must contain at least 32 characters"
long_enough (some secret) =
    throw_if (ltb (length secret) 32) "Report token secret must contain at least 32 characters"
    >> ok secret

pub get_report_token_secret : TokenEnv → Result Text
get_report_token_secret env =
    let dedicated = trimmed env.report_token_secret in
    let fallback = trimmed env.better_auth_secret in
    throw_if
      (same_option env.node_env (some (codes "production"))
        && (is_unset dedicated || same_option dedicated fallback))
      "Production requires a distinct REPORT_TOKEN_SECRET"
    >> long_enough (or_else dedicated fallback)

module _ (c : Crypto) where
  pub report_token_key : Text → Result Bytes
  report_token_key secret =
      throw_if (ltb (length secret) 32) "Report token secret must contain at least 32 characters"
      >> ok (c.sha256 secret)

  pub hash_report_share_token : (Bytes → Text) → Text → Result Text
  hash_report_share_token hex token =
      throw_if (not (is_report_share_token token)) "Invalid report share token"
      >> ok (hex (c.sha256 token))

  abbrev pub sealed : Bytes → Bytes × Bytes → Text
  sealed iv (ciphertext, tag) =
      codes "v1"
      ++ (dot ++ (c.encode iv ++ (dot ++ (c.encode ciphertext ++ (dot ++ c.encode tag)))))

  -- `iv` are the twelve random bytes.
  pub encrypt_report_share_token : Bytes → Text → Text → Result Text
  encrypt_report_share_token iv token secret =
      throw_if (not (is_report_share_token token)) "Invalid report share token"
      >> (report_token_key secret >>= λ key. ok (sealed iv (c.encrypt key iv (c.utf8 token))))

  abbrev pub checked_token : Option Bytes → Result Text
  checked_token none = throw "Invalid encrypted report token"
  checked_token (some plain) =
      throw_if (not (is_report_share_token (c.from_utf8 plain))) "Invalid encrypted report token"
      >> ok (c.from_utf8 plain)

  abbrev pub with_key : Result Bytes → Bytes → Bytes → Bytes → Result Text
  with_key (throw e) iv ciphertext tag = throw "Invalid encrypted report token"
  with_key (ok key) iv ciphertext tag = checked_token (c.decrypt key iv ciphertext tag)

  -- The `try` block: whatever it throws becomes the one error.
  pub open_parts : Text → Text → Text → Text → Result Text
  open_parts iv_value ciphertext_value tag_value secret =
      let iv = c.decode iv_value in
      let ciphertext = c.decode ciphertext_value in
      let tag = c.decode tag_value in
      throw_if (not (eqb (length iv) 12) || not (eqb (length tag) 16) || eqb (length ciphertext) 0)
        "Invalid encrypted report token"
      >> with_key (report_token_key secret) iv ciphertext tag

  pub open_list : List Text → Text → Result Text
  open_list (version ∷ iv ∷ ciphertext ∷ tag ∷ []) secret =
      throw_if (not (version == codes "v1")) "Invalid encrypted report token"
      >> throw_if (is_empty iv || is_empty ciphertext || is_empty tag)
          "Invalid encrypted report token"
      >> open_parts iv ciphertext tag secret
  open_list _ secret = throw "Invalid encrypted report token"

  pub decrypt_report_share_token : Text → Text → Result Text
  decrypt_report_share_token encrypted secret = open_list (split_on b'.' encrypted) secret
