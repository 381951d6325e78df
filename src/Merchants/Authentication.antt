-- ===== src/Merchants/Authentication.antt =====
-- The API's auth/merchant-authentication.service.ts and auth/merchant-api-key.guard.ts. The hash of a
-- key, an HMAC under the service's secret, is an argument.
use achflow.Prelude.{
  ℕ, ◌+◌, List, [], ◌∷◌, String, Bool, false, ◌&&◌, ◌||◌, Option, none, some, find, ◌==◌, leb,
  str_eq, is_space, trim, if◌then◌else◌,
}
use achflow.Schema.{
  Merchant, MerchantApiKey, Tx, gets, or_throw, ◌>>=◌, unauthorized, record_missing,
  invalid_api_key, bearer_key_required, find_merchant,
}
use Prim.Native.Char.{code}

abbrev pub has_hash : String → MerchantApiKey → Bool
has_hash h k = str_eq k.hashed_api_key h

-- `/^Bearer\s+(.+)$/i` and `trim`: the word, in any case, spaces, and a text of one line.
unfoldable pub after_word : (word : List ℕ) → String → Option String
after_word [] s = some s
after_word (w ∷ ws) String.[] = none
after_word (w ∷ ws) (String.◌∷◌ c s) =
    let rest = after_word ws s in
    if code c == w || code c + 32 == w && leb 65 (code c) && leb (code c) 90 then rest else none

unfoldable pub skip_spaces : String → String
unfolding is_space
skip_spaces String.[] = ""
skip_spaces (String.◌∷◌ c s) =
    let rest = skip_spaces s in if is_space (code c) then rest else String.◌∷◌ c s

abbrev pub is_line_end : ℕ → Bool
is_line_end c = c == 10 || c == 13 || c == 0x2028 || c == 0x2029

unfoldable pub has_line_end : String → Bool
has_line_end String.[] = false
has_line_end (String.◌∷◌ c s) = is_line_end (code c) || has_line_end s

-- The captured text, trimmed, where it is not empty.
abbrev captured : String → Option String
captured String.[] = none
captured (String.◌∷◌ c s) =
    if has_line_end (String.◌∷◌ c s) then none else some (trim (String.◌∷◌ c s))

abbrev after_space : String → Option String
after_space String.[] = none
after_space (String.◌∷◌ c s) = if is_space (code c) then captured (skip_spaces s) else none

-- "bearer"
abbrev pub bearer : List ℕ
bearer = 98 ∷ 101 ∷ 97 ∷ 114 ∷ 101 ∷ 114 ∷ []

unfoldable pub bearer_key : (authorization : Option String) → Option String
unfolding after_word skip_spaces has_line_end trim is_space
bearer_key none = none
bearer_key (some text) = elim (after_word bearer text) [
  | none ↦ none
  | some rest ↦ after_space rest
]

module _ (hash_api_key : String → String) where
  -- `authenticate`, with the merchant that the record includes.
  unfoldable pub authenticate : (api_key : String) → Tx Merchant
  authenticate api_key = do
    found ← gets (λ db. find (has_hash (hash_api_key api_key)) db.api_keys)
    key ← or_throw found (unauthorized invalid_api_key)
    merchant ← gets (find_merchant key.merchant_id)
    or_throw merchant record_missing

  -- `canActivate`, which keeps the merchant for the request.
  unfoldable pub can_activate : (authorization : Option String) → Tx Merchant
  unfolding authenticate bearer_key
  can_activate authorization = do
    api_key ← or_throw (bearer_key authorization) (unauthorized bearer_key_required)
    authenticate api_key
