-- ===== src/Store/Identifiers.antt =====
-- The validators of repository.py: `_require_identifier` with the regular expression of models.py,
-- `_require_lease_duration`, `_validate_lease_identity`.
use Prim.Native.Char.{code}
use chaosagent.Base.{
  ℕ, String, Bool, true, false, ◌&&◌, ◌||◌, List, [], ◌∷◌, leb, length, ◌==◌, nat_eq,
}
use chaosagent.Store.Tables.{LeaseIdentity}

abbrev pub codes : String → List ℕ
codes String.[] = []
codes (String.◌∷◌ c s) = code c ∷ codes s

unfoldable pub is_alphanumeric : ℕ → Bool
is_alphanumeric c =
    (leb b'A' c && leb c b'Z') || ((leb b'a' c && leb c b'z') || (leb b'0' c && leb c b'9'))

unfoldable pub is_identifier_char : ℕ → Bool
unfolding is_alphanumeric
is_identifier_char c = is_alphanumeric c || ((c == b'.' || c == b'_') || (c == b':' || c == b'-'))

abbrev pub every : (ℕ → Bool) → List ℕ → Bool
every p [] = true
every p (c ∷ rest) = p c && every p rest

-- `^[A-Za-z0-9][A-Za-z0-9._:-]*$`
unfoldable pub matches_identifier : List ℕ → Bool
unfolding is_alphanumeric is_identifier_char
matches_identifier [] = false
matches_identifier (c ∷ rest) = is_alphanumeric c && every is_identifier_char rest

-- `_require_identifier`: false is the `ValueError`
unfoldable pub is_identifier : String → Bool
unfolding matches_identifier
is_identifier value = leb (length (codes value)) 128 && matches_identifier (codes value)

-- `_validate_lease_identity`
unfoldable pub is_lease_identity : LeaseIdentity → Bool
unfolding is_identifier
is_lease_identity lease =
    (is_identifier lease.run_id && is_identifier lease.worker_id)
    && (is_identifier lease.lease_token && leb 1 lease.attempt)

-- `_require_lease_duration`
unfoldable pub is_lease_duration : ℕ → Bool
is_lease_duration value = leb 1 value && leb value 86400
