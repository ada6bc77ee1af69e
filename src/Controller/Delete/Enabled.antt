-- ===== src/Controller/Delete/Enabled.antt =====
-- The bucket is touched only where the storage class allows it.
use zerofs_csi_driver.Base.{
  ℕ, zero, suc, ◌≡◌, ◌⊎◌, inl, inr, Bool, true, false, Bool-cases, Option, List, [], ◌∷◌, Str,
}
use zerofs_csi_driver.Base.Text.{Dict}
use zerofs_csi_driver.Host.{
  Env, Sys, Exec, Call, Reply, Event, did, Answer, got, refused, pure, perform, ◌>>=◌,
}
use zerofs_csi_driver.Host.Keeps.{Keeps, keeps_rules}
use zerofs_csi_driver.Controller.Bucket.{
  DeleteConfig, Location, delete_page, handle_page, read_page, page_round, delete_pages,
  list_and_delete, connect_and_delete, delete_s3_prefix,
}
use zerofs_csi_driver.Controller.Delete.{
  ControllerService, allows_deletion, delete_for_class, delete_in_class,
  delete_volume_data_if_enabled,
}
use zerofs_csi_driver.Controller.Delete.Frame.{
  uses_bucket, done_or_fail-Keeps, delete_configured-Keeps, delete_with_mounter-Keeps,
}

-- Some storage class was read, and its parameters allow the deletion of data.
abbrev pub Allowed : List Event → Type 0
Allowed [] = ⊥
Allowed (did (Call.get_storage_class n) (got parameters) ∷ log) =
    (allows_deletion parameters ≡ true) ⊎ Allowed log
Allowed (did c r ∷ log) = Allowed log

abbrev pub IsAllowed : Event → List Event → Type 0
IsAllowed (did (Call.list_objects bucket prefix) r) log = Allowed log
IsAllowed (did (Call.delete_objects bucket keys) r) log = Allowed log
IsAllowed _ log = Unit

-- The bucket is listed, and objects are deleted, only after such a read.
abbrev pub UsesBucketAllowed : List Event → Type 0
UsesBucketAllowed [] = Unit
UsesBucketAllowed (e ∷ log) = IsAllowed e log × UsesBucketAllowed log

-- What every call keeps, the part behind the test of the parameters keeps.
module _ {E : Env} {P : Sys E → Type 0} (every : (c : Call) → Keeps P (perform c)) where
  delete_page-Keeps :
      (bucket : Str) (objects : List (Option Str)) → Keeps P (delete_page bucket objects)
  unfolding delete_page
  delete_page-Keeps bucket [] = search keeps_rules
  delete_page-Keeps bucket (object ∷ objects) = search (keeps_rules, every, done_or_fail-Keeps)

  handle_page-Keeps :
      (bucket : Str) (page : Answer (List (Option Str))) → Keeps P (handle_page bucket page)
  unfolding handle_page
  handle_page-Keeps bucket (got objects) = delete_page-Keeps bucket objects
  handle_page-Keeps bucket (refused text) = search keeps_rules

  read_page-Keeps : (bucket : Str) → Keeps P (read_page bucket)
  unfolding read_page
  read_page-Keeps bucket = search (keeps_rules, every, handle_page-Keeps)

  page_round-Keeps :
      (bucket : Str) (next : Exec E Unit) → Keeps P next → Keeps P (page_round bucket next)
  unfolding page_round
  page_round-Keeps bucket next k = search (keeps_rules, read_page-Keeps)

  delete_pages-Keeps : (bucket : Str) (left : ℕ) → Keeps P (delete_pages bucket left)
  unfolding delete_pages
  delete_pages-Keeps bucket zero = search keeps_rules
  delete_pages-Keeps bucket (suc left) = page_round-Keeps bucket _ (delete_pages-Keeps bucket left)

  list_and_delete-Keeps : (loc : Location) (loaded : Bool) → Keeps P (list_and_delete loc loaded)
  unfolding list_and_delete
  list_and_delete-Keeps loc false = search keeps_rules
  list_and_delete-Keeps loc true = search (keeps_rules, every, delete_pages-Keeps)

  delete_s3_prefix-Keeps :
      (config : DeleteConfig) (loc : Location) → Keeps P (delete_s3_prefix config loc)
  unfolding delete_s3_prefix connect_and_delete
  delete_s3_prefix-Keeps config loc = search (keeps_rules, every, list_and_delete-Keeps) depth 12

other-IsAllowed :
    (c : Call) → uses_bucket c ≡ false → (r : Reply c) (log : List Event) → IsAllowed (did c r) log
other-IsAllowed (Call.list_objects b p) h r log = absurd (cc)
other-IsAllowed (Call.delete_objects b ks) h r log = absurd (cc)
other-IsAllowed _ h r log = tt

any-IsAllowed : (c : Call) (r : Reply c) (log : List Event) → Allowed log → IsAllowed (did c r) log
any-IsAllowed (Call.list_objects b p) r log h = h
any-IsAllowed (Call.delete_objects b ks) r log h = h
any-IsAllowed _ r log h = tt

class-Allowed :
    (n : Str) (r : Answer Dict) (log : List Event)
    → Allowed log
    → Allowed (did (Call.get_storage_class n) r ∷ log)
class-Allowed n (got parameters) log h = inr h
class-Allowed n (refused text) log h = h

any-Allowed : (c : Call) (r : Reply c) (log : List Event) → Allowed log → Allowed (did c r ∷ log)
any-Allowed (Call.get_storage_class n) r log h = class-Allowed n r log h
any-Allowed _ r log h = h

module _ {E : Env} where
  abbrev Fine : Sys E → Type 0
  Fine s = UsesBucketAllowed s.log

  abbrev Open : Sys E → Type 0
  Open s = UsesBucketAllowed s.log × Allowed s.log

  every-Open : (c : Call) → Keeps {E = E} Open (perform c)
  unfolding perform
  every-Open c = record {
    holds = λ s k. ((any-IsAllowed c _ s.log k.1, k.0), any-Allowed c _ s.log k.1);
  }

  other-Fine : (c : Call) → uses_bucket c ≡ false → Keeps {E = E} Fine (perform c)
  unfolding perform
  other-Fine c h = record { holds = λ s k. (other-IsAllowed c h _ s.log, k) }

-- Once the storage class has been read.
module _ (E : Env) (cs : ControllerService) (namespace volume name : Str) where
  delete_for_class-Fine :
      (r : Answer Dict) (w : E.World) (log : List Event)
      → UsesBucketAllowed log
      → let s : Sys E = record { world = w; log = did (Call.get_storage_class name) r ∷ log } in
        Fine (delete_for_class {E = E} cs namespace volume r s).1
  unfolding delete_for_class pure
  delete_for_class-Fine (refused text) w log h = (tt, h)
  delete_for_class-Fine (got parameters) w log h = elim (Bool-cases (allows_deletion parameters)) [
    | inl e ↦ rw e (
        ((delete_configured-Keeps (λ c x. every-Open c) (delete_s3_prefix-Keeps every-Open) cs
            namespace volume _).holds
          _ ((tt, h), inl e)).0)
    | inr e ↦ rw e (tt, h)
  ]

module _ {E : Env} (cs : ControllerService) (namespace volume : Str) where
  delete_in_class-Fine :
      (name : Str) → Keeps {E = E} Fine (delete_in_class cs namespace volume name)
  unfolding delete_in_class ◌>>=◌
  delete_in_class-Fine [] = search keeps_rules
  delete_in_class-Fine (c ∷ name) = record {
    holds = λ s h.
        let ask = Call.get_storage_class (c ∷ name) in
        delete_for_class-Fine E cs namespace volume (c ∷ name) (E.answer ask s.world).0
          (E.answer ask s.world).1 s.log h;
  }

-- The deletion of a volume's data lists a bucket, or deletes objects, only where an earlier call read
-- a storage class whose parameter deleteDataOnPVCDelete is true: if this holds of the calls made before, it
-- holds of those made by its end, whatever they reply and also when the deletion fails.
pub delete_volume_data_if_enabled-UsesBucketAllowed :
    {E : Env} (cs : ControllerService) (volume : Str) (s : Sys E)
    → UsesBucketAllowed s.log
    → UsesBucketAllowed (delete_volume_data_if_enabled cs volume s).1.log
unfolding delete_volume_data_if_enabled
delete_volume_data_if_enabled-UsesBucketAllowed cs volume s h =
    (delete_with_mounter-Keeps other-Fine cs volume
        (λ namespace. delete_in_class-Fine cs namespace volume) cs.mounter).holds
      s h
