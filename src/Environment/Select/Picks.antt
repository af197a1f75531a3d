-- ===== src/Environment/Select/Picks.antt =====
-- Which tasks and which calls a selection traces.
use ipm_nci.Base.{ℕ, ◌+◌, ◌*◌, Bool, true, false, ◌||◌, if◌then◌else◌, ◌≡◌, List, [], ◌∷◌}
use ipm_nci.Base.Bits.Flags.{has}
use ipm_nci.Base.Int.{ℤ, pos}
use ipm_nci.Base.Strings.{Str}
use ipm_nci.Base.Tokens.{atoi}
use ipm_nci.Flags.{ipm_trc_active, ipm_trc_canceled}
use ipm_nci.Environment.Words.{word_even, word_odd}
use ipm_nci.Environment.Select.{names_rank}

abbrev pub any_names : List Str → ℤ → Bool
any_names [] rank = false
any_names (w ∷ ws) rank = names_rank w rank || any_names ws rank

abbrev Decided : Bool → ℕ → ℕ → Type 0
Decided any f g =
    (has g ipm_trc_active ≡ (if any then true else has f ipm_trc_active))
    × (has g ipm_trc_canceled ≡ (if any then false else has f ipm_trc_canceled))

-- The words that name the rank n: "even" and "odd", and what atoi reads as n, which is 0 for a word
-- that does not begin with a number.
pub data Names (n : ℕ) : Str → Type 0 where
  by_even : (k : ℕ) → n ≡ 2 * k → Names n word_even
  by_odd : (k : ℕ) → n ≡ 2 * k + 1 → Names n word_odd
  by_number : {w : Str} → atoi w ≡ pos n → Names n w

pub data Named (n : ℕ) : List Str → Type 0 where
  here : {w : Str} {ws : List Str} → Names n w → Named n (w ∷ ws)
  there : {w : Str} {ws : List Str} → Named n ws → Named n (w ∷ ws)
