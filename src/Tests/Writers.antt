-- ===== src/Tests/Writers.antt =====
-- Two writers of the provisioned partition (magicvault-core/src/store.rs) whose steps interleave.
use magic_vault.Base.{false, text_eq, none, some, [], ascii, ◌≡◌, refl}
use magic_vault.Base.Time.{pos}
use magic_vault.Secrets.{InjectionTarget}
use magic_vault.Policy.Check.{SecretPolicy}
use magic_vault.Store.Features.{fully_available, refused_feature}
use magic_vault.Store.Provisioning.{
  ProvisionedPartition, store_provisioned, snapshot, publish, WriterSteps, stores, snapshots,
  publishes, idle, then_step, file-entries,
}

abbrev bearer : InjectionTarget
bearer = InjectionTarget.header (ascii "authorization") (some (ascii "Bearer "))

abbrev open_policy : SecretPolicy
open_policy = record {
  allowed_tools = [];
  allowed_domains = [];
  max_uses_per_day = none;
  requires_approval = false;
}

abbrev before : ProvisionedPartition
before = record {
  capabilities = fully_available (ascii "memory");
  entries = [];
  file = [];
  writers = 0;
  lock = none;
}

abbrev one_waits : ProvisionedPartition
one_waits = (store_provisioned before (ascii "s1") (ascii "bank") [] bearer open_policy (pos 1)).0

abbrev one_copied : ProvisionedPartition
one_copied = record one_waits { writers = 0; lock = some one_waits.entries }

abbrev two_waits : ProvisionedPartition
two_waits =
    (store_provisioned one_copied (ascii "s2") (ascii "shop") [] bearer open_policy (pos 2)).0

abbrev one_published : ProvisionedPartition
one_published = record two_waits { file = one_waits.entries; lock = none }

abbrev two_copied : ProvisionedPartition
two_copied = record one_published { writers = 0; lock = some two_waits.entries }

abbrev after : ProvisionedPartition
after = record two_copied { file = two_waits.entries; lock = none }

test_copy : snapshot one_waits ≡ some one_copied
unfolding snapshot store_provisioned refused_feature
test_copy = refl

test_publication : publish two_waits ≡ some one_published
unfolding publish store_provisioned refused_feature
test_publication = refl

test_second_copy : snapshot one_published ≡ some two_copied
unfolding snapshot store_provisioned refused_feature
test_second_copy = refl

test_second_publication : publish two_copied ≡ some after
unfolding publish
test_second_publication = refl

to_published : WriterSteps before one_published
to_published =
    then_step
      (then_step
        (then_step
          (then_step idle (stores before (ascii "s1") (ascii "bank") [] bearer open_policy (pos 1)))
          (snapshots test_copy))
        (stores one_copied (ascii "s2") (ascii "shop") [] bearer open_policy (pos 2)))
      (publishes test_publication)

to_after : WriterSteps before after
to_after =
    then_step (then_step to_published (snapshots test_second_copy))
      (publishes test_second_publication)

file-entries_example : after.file ≡ after.entries
file-entries_example = file-entries {p = before} {q = after} (λ _. refl) to_after refl refl
