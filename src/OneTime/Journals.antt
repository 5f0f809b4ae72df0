-- ===== src/OneTime/Journals.antt =====
-- magicvault-core/src/one_time.rs: what the calls on one entry journal.
use magic_vault.Base.{Text, text_eq, arith, nat_eq, option_text_eq}
use magic_vault.Base.Time.{ℤ}
use magic_vault.OneTime.Entry.{OneTimeClaim, OneTimeEntry}
use magic_vault.OneTime.Table.{reserve_entry}
use magic_vault.OneTime.Settle.{consume_entry, release_entry, cancel_entry}
use magic_vault.OneTime.Lifecycle.{Journaled}

-- Each call on one entry journals its change of state with the state that it leaves, and nothing if
-- the state stays.
pub calls-Journaled :
    (e : OneTimeEntry) (claim : OneTimeClaim) (id : Text) (now : ℤ)
    → Journaled e (reserve_entry e claim id now).0 (reserve_entry e claim id now).1.journal
      × Journaled e (consume_entry e id now).0 (consume_entry e id now).1.journal
      × Journaled e (release_entry e id now).0 (release_entry e id now).1.journal
      × Journaled e (cancel_entry e now).0 (cancel_entry e now).1.journal
unfolding reserve_entry consume_entry release_entry cancel_entry
calls-Journaled e claim id now = (grind arith, grind arith, grind arith, grind arith)
