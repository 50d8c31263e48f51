-- ===== src/Contract/Inbox/Cursor.antt =====
-- What an accepted slice of the inbox looks like.
use bimo.Base.{ℕ, suc, ◌+◌, ◌≤◌, String, ok, >>-eq-ok, List, [], ◌∷◌, length, ◌≡◌, arith, ap, ◌<>◌}
use bimo.Js.{Value, nat, get, nat_of, elements}
use bimo.Contract.Fields.{assert_integer, at_index}
use bimo.Contract.Inbox.{check_entry, deliver_from, validate_delivered_inbox}

-- the entries carry the numbers after n, one by one
abbrev pub Consecutive : ℕ → List Value → Type 0
Consecutive n [] = Unit
Consecutive n (e ∷ es) = (get e "sequence" ≡ nat (n + 1)) × Consecutive (n + 1) es

exact_integer :
    (v : Value) (n : ℕ) (label : String) → assert_integer v n n label ≡ ok tt → v ≡ nat n
unfolding assert_integer
exact_integer (nat m) n label h = ap nat (ground arith)
exact_integer _ n label h = cc

module _ (sha256 : String → String) where
  check_entry-sequence :
      (plan : Value) (owner : String) (cursor i : ℕ) (e : Value)
      → check_entry sha256 plan owner cursor i e ≡ ok tt
      → get e "sequence" ≡ nat (cursor + 1)
  unfolding check_entry
  check_entry-sequence plan owner cursor i e h =
      exact_integer (get e "sequence") (cursor + 1) (at_index "deliveredInbox" i <> ".sequence")
        (ground arith)

  deliver_from-Consecutive :
      (plan : Value) (owner : String) (cursor i : ℕ) (es : List Value) (c : ℕ)
      → deliver_from sha256 plan owner cursor i es ≡ ok c
      → Consecutive cursor es × (c ≡ cursor + length es)
  unfolding deliver_from
  deliver_from-Consecutive plan owner cursor i [] c h = (tt, ground arith)
  deliver_from-Consecutive plan owner cursor i (e ∷ es) c h =
      let ((_, here), later) = >>-eq-ok _ _ h in
      let s = check_entry-sequence plan owner cursor i e here in
      let next : deliver_from sha256 plan owner (cursor + 1) (suc i) es ≡ ok c =
        rw (ap nat_of s) at later in
      let (rest, end) = deliver_from-Consecutive plan owner (cursor + 1) (suc i) es c next in
      ((s, rest), omega (arith, end))

  -- An accepted slice has at most 20 entries, numbered one by one after the previous cursor, and
  -- the new cursor is the number of the last entry.
  pub delivered_inbox-Consecutive :
      (entries plan : Value) (owner : String) (previous c : ℕ)
      → validate_delivered_inbox sha256 entries plan owner previous ≡ ok c
      → Consecutive previous (elements entries)
        × (c ≡ previous + length (elements entries))
        × (length (elements entries) ≤ 20)
  unfolding validate_delivered_inbox
  delivered_inbox-Consecutive entries plan owner previous c h =
      ground (arith, deliver_from-Consecutive plan owner previous 0 (elements entries) c)
