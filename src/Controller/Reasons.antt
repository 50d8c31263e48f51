-- ===== src/Controller/Reasons.antt =====
-- `reasonOf` and `terminalInterruption` of src/pod-controller.mjs.
use bimo.Base.{
  take_units, ℕ, zero, suc, String, Bool, true, false, not, List, [], ◌∷◌, any, codes, starts,
  lower_code, length, map, is_lower, is_upper, is_digit, ◌==◌, ◌&&◌, ◌||◌, ◌≡◌, refl,
}

-- `\w`
abbrev is_word : ℕ → Bool
is_word c = is_lower c || is_upper c || is_digit c || c == b'_'

abbrev pub drop {ℓ} : {A : Type ℓ} → ℕ → List A → List A
drop zero xs = xs
drop (suc n) [] = []
drop (suc n) (x ∷ xs) = drop n xs

abbrev ends_word : List ℕ → Bool
ends_word [] = true
ends_word (c ∷ cs) = not (is_word c)

-- the texts that the alternatives of the pattern match
abbrev interruption_words : List String
interruption_words =
    "cancel" ∷ "cancelled" ∷ "canceled" ∷ "interrupt" ∷ "interrupted" ∷ "deadline" ∷ "timeout"
    ∷ "timedout" ∷ "time out" ∷ "timed out" ∷ []

abbrev word_here : List ℕ → Bool
word_here cs =
    any (λ w. starts cs (codes w) && ends_word (drop (length (codes w)) cs)) interruption_words

-- the search for the pattern; the flag says that a word character stands before
search_word : Bool → List ℕ → Bool
search_word inside [] = false
search_word inside (c ∷ cs) = not inside && word_here (c ∷ cs) || search_word (is_word c) cs

-- `reasonOf(error)`, on the message of the error
unfoldable pub reason_of : String → String
reason_of message = take_units 2000 message

-- /\b(?:cancel(?:led|ed)?|interrupt(?:ed)?|deadline|timed? ?out|timeout)\b/i.test(reason)
unfoldable pub terminal_interruption : String → Bool
unfolding search_word
terminal_interruption message = search_word false (map lower_code (codes (reason_of message)))

interruption_tests :
    (terminal_interruption "pod workflow deadline exceeded" ≡ true)
    × (terminal_interruption "checker rejected qa-tests: no TIMEOUT test" ≡ true)
    × (terminal_interruption "cancellation is not canceled_ yet" ≡ false)
unfolding terminal_interruption reason_of
interruption_tests = (refl, refl, refl)
