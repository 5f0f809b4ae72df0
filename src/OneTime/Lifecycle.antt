-- ===== src/OneTime/Lifecycle.antt =====
-- The lifecycle diagram at the head of magicvault-core/src/one_time.rs, as a relation on states, and
-- the steps of one entry along it.
use magic_vault.Base.{
  Text, true, none, List, [], ◌∷◌, ◌≡◌, ◌⊎◌, arith, is_some, text_eq, option_text_eq,
}
use magic_vault.Base.Time.{ℤ}
use magic_vault.OneTime.Entry.{
  OneTimeClaim, OneTimeEntry, OneTimeState, JournalLine, expire_if_due, is_live, is_reserved,
}
use magic_vault.OneTime.Table.{reserve_entry}
use magic_vault.OneTime.Settle.{consume_entry, release_entry, cancel_entry}

-- The edges of the diagram; `stay` is a call that changes no state.
pub data Edge : OneTimeState → OneTimeState → Type 0 where
  stay : {s : OneTimeState} → Edge s s
  hold : Edge OneTimeState.available OneTimeState.reserved
  spend : Edge OneTimeState.reserved OneTimeState.consumed
  give_back : Edge OneTimeState.reserved OneTimeState.available
  lapse : {s : OneTimeState} → is_live s ≡ true → Edge s OneTimeState.expired
  revoke : {s : OneTimeState} → is_live s ≡ true → Edge s OneTimeState.cancelled

pub ruleset edges = (stay, hold, spend, give_back, lapse, revoke)

-- `e'` is a later stage of the registration `e`: its identity, binding and deadline are the same,
-- and its state lies one edge further at most.
pub record Follows (e e' : OneTimeEntry) : Type 0 where
  pub same_scope : e'.scope_id ≡ e.scope_id
  pub same_input : e'.input_id ≡ e.input_id
  pub same_binding : e'.binding ≡ e.binding
  pub same_deadline : e'.deadline_ms ≡ e.deadline_ms
  pub same_generation : e'.generation ≡ e.generation
  pub edge : Edge e.state e'.state
  pub value_kept : (e'.value ≡ e.value) ⊎ (e'.value ≡ none)

-- A call on one entry journals nothing and leaves the state, or journals its one change of state.
abbrev pub Journaled : OneTimeEntry → OneTimeEntry → List JournalLine → Type 0
Journaled e e' journal =
    ((e'.state ≡ e.state) × (journal ≡ []))
    ⊎ ((l : JournalLine) × (journal ≡ l ∷ [])
        × (l.receipt.state ≡ e'.state)
        × (l.receipt.transition ≡ e'.last)
        × (l.claim ≡ e'.claim ⊎ l.claim ≡ e.claim))

module _ (e : OneTimeEntry) (now : ℤ) where
  pub expire-Follows : Follows e (expire_if_due e now).0
  unfolding expire_if_due
  expire-Follows = grind (arith, edges)

  pub reserve_entry-Follows :
      (claim : OneTimeClaim) (fresh : Text) → Follows e (reserve_entry e claim fresh now).0
  unfolding reserve_entry
  reserve_entry-Follows claim fresh = grind (arith, edges)

  pub consume_entry-Follows :
      (id : Text)
      → is_some e.reservation_id ≡ is_reserved e.state
      → Follows e (consume_entry e id now).0
  unfolding consume_entry
  consume_entry-Follows id h = grind (arith, edges)

  pub release_entry-Follows :
      (id : Text)
      → is_some e.reservation_id ≡ is_reserved e.state
      → Follows e (release_entry e id now).0
  unfolding release_entry
  release_entry-Follows id h = grind (arith, edges)

  pub cancel_entry-Follows : Follows e (cancel_entry e now).0
  unfolding cancel_entry
  cancel_entry-Follows = grind (arith, edges)
