-- ===== src/Login/Key.antt =====
-- The key that login attempts are counted under: web/v1/login_guard.go, loginAttemptKey.
use goster_io_t.Common.{ℕ, suc, ◌+◌, ◌-◌, Bool, true, false, ◌==◌, ◌||◌, Option, none, some}
use goster_io_t.Common.{[], ◌∷◌, ◌++◌, take, drop, is_empty, if◌then◌else◌}
use goster_io_t.Common.Text.{Text, text, trim_space, to_lower}

-- strings.IndexByte, none for -1
abbrev index_byte : ℕ → Text → Option ℕ
index_byte c [] = none
index_byte c (b ∷ s) =
    let rest = index_byte c s in
    if b == c then some 0 else elim rest [ none ↦ none | some i ↦ some (suc i) ]

-- bytealg.LastIndexByteString, none for -1
abbrev last_index_byte : ℕ → Text → Option ℕ
last_index_byte c [] = none
last_index_byte c (b ∷ s) = elim (last_index_byte c s) [
  | some i ↦ some (suc i)
  | none ↦ if b == c then some 0 else none
]

abbrev contains : ℕ → Text → Bool
contains c s = elim (index_byte c s) [ none ↦ false | some i ↦ true ]

-- The checks at the end of net.SplitHostPort.
abbrev checked_host : Text → Text → Text → Option Text
checked_host host after_open after_close =
    if contains 0x5b after_open || contains 0x5d after_close then none else some host

-- `[host]:port`, where the last colon must follow the bracket.
abbrev bracketed : Text → ℕ → Option Text
bracketed s colon = elim (index_byte 0x5d s) [
  | none ↦ none
  | some end ↦
      if end + 1 == colon
      then checked_host (take (end - 1) (drop 1 s)) (drop 1 s) (drop (end + 1) s)
      else none
]

abbrev unbracketed : Text → ℕ → Option Text
unbracketed s colon =
    let host = take colon s in if contains 0x3a host then none else checked_host host s s

-- The host of net.SplitHostPort, none for its errors.
unfoldable pub split_host : Text → Option Text
split_host s = elim (last_index_byte 0x3a s) [
  | none ↦ none
  | some colon ↦
      if elim s [ [] ↦ false | b ∷ r ↦ b == 0x5b ] then bracketed s colon else unbracketed s colon
]

unfoldable pub login_attempt_ip : Text → Text
unfolding split_host
login_attempt_ip remote_addr =
    let addr = trim_space remote_addr in
    if is_empty addr then text "unknown" else elim (split_host addr) [
      | none ↦ addr
      | some host ↦ if is_empty (trim_space host) then addr else trim_space host
    ]

unfoldable pub login_attempt_key : Text → Text → Text
login_attempt_key username remote_addr =
    let name = to_lower (trim_space username) in
    let name' = if is_empty name then text "unknown" else name in
    name' ++ (text "|" ++ login_attempt_ip remote_addr)
