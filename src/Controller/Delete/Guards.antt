-- ===== src/Controller/Delete/Guards.antt =====
-- Which objects a deletion of data may delete.
use zerofs_csi_driver.Base.{
  ℕ, zero, suc, ◌≡◌, ◌≢◌, refl, Bool, true, false, Option, List, [], ◌∷◌, Str, ◌===◌, trim_space,
  is_blank,
}
use zerofs_csi_driver.Base.Text.{Dict}
use zerofs_csi_driver.Host.{
  Env, Sys, Exec, Call, Reply, Event, did, Answer, got, refused, perform, ◌>>=◌,
}
use zerofs_csi_driver.Host.Keeps.{Keeps, Keeps-bind, keeps_rules}
use zerofs_csi_driver.Controller.Bucket.{
  DeleteConfig, Location, keys_of, delete_page, handle_page, read_page, page_round, delete_pages,
  list_and_delete, connect_and_delete, delete_s3_prefix,
}
use zerofs_csi_driver.Controller.Delete.{
  ControllerService, delete_for_class, delete_in_class, delete_volume_data_if_enabled,
}
use zerofs_csi_driver.Controller.Delete.Frame.{
  uses_bucket, done_or_fail-Keeps, delete_configured-Keeps, delete_with_mounter-Keeps,
}

-- The call before gave a page with just these keys.
abbrev pub JustListed : List Str → List Event → Type 0
JustListed keys (did Call.next_page (got objects) ∷ log) = keys ≡ keys_of objects
JustListed keys _ = ⊥

abbrev pub IsCareful : Event → List Event → Type 0
IsCareful (did (Call.list_objects bucket prefix) r) log = (bucket ≢ []) × (prefix ≢ [])
IsCareful (did (Call.delete_objects bucket keys) r) log = JustListed keys log
IsCareful _ log = Unit

-- Each listing has a bucket and a prefix; each deletion deletes the keys of the page listed last.
abbrev pub DeletesListed : List Event → Type 0
DeletesListed [] = Unit
DeletesListed (e ∷ log) = IsCareful e log × DeletesListed log

other-IsCareful :
    (c : Call) → uses_bucket c ≡ false → (r : Reply c) (log : List Event) → IsCareful (did c r) log
other-IsCareful (Call.list_objects b p) h r log = absurd (cc)
other-IsCareful (Call.delete_objects b ks) h r log = absurd (cc)
other-IsCareful _ h r log = tt

not_empty-given : (s : Str) → (s === []) ≡ false → s ≢ []
not_empty-given [] h = absurd (cc)
not_empty-given (c ∷ s) h = λ e. absurd (cc)

module _ {E : Env} where
  abbrev pub IsTidy : Sys E → Type 0
  IsTidy s = DeletesListed s.log

  other-IsTidy : (c : Call) → uses_bucket c ≡ false → Keeps {E = E} IsTidy (perform c)
  unfolding perform
  other-IsTidy c h = record { holds = λ s k. (other-IsCareful c h _ s.log, k) }

  list-IsTidy :
      (bucket prefix : Str)
      → bucket ≢ []
      → prefix ≢ []
      → Keeps {E = E} IsTidy (perform (Call.list_objects bucket prefix))
  unfolding perform
  list-IsTidy bucket prefix b p = record { holds = λ s k. ((b, p), k) }

module _ (E : Env) where
  -- A page is handled directly after it is read.
  handle_page-IsTidy :
      (bucket : Str) (page : Answer (List (Option Str))) (w : E.World) (log : List Event)
      → DeletesListed log
      → let s : Sys E = record { world = w; log = did Call.next_page page ∷ log } in
        IsTidy (handle_page {E = E} bucket page s).1
  unfolding handle_page delete_page ◌>>=◌
  handle_page-IsTidy bucket (refused text) w log k = (tt, k)
  handle_page-IsTidy bucket (got []) w log k = (tt, k)
  handle_page-IsTidy bucket (got (object ∷ objects)) w log k =
      (done_or_fail-Keeps {P = IsTidy} _).holds _ (refl, (tt, k))

module _ {E : Env} where
  read_page-IsTidy : (bucket : Str) → Keeps {E = E} IsTidy (read_page bucket)
  unfolding read_page perform ◌>>=◌
  read_page-IsTidy bucket = record {
    holds = λ s k.
        handle_page-IsTidy E bucket (E.answer Call.next_page s.world).0
          (E.answer Call.next_page s.world).1 s.log k;
  }

  page_round-IsTidy :
      (bucket : Str) (next : Exec E Unit)
      → Keeps IsTidy next
      → Keeps IsTidy (page_round bucket next)
  unfolding page_round
  page_round-IsTidy bucket next k = search (keeps_rules, read_page-IsTidy)

  delete_pages-IsTidy : (bucket : Str) (left : ℕ) → Keeps {E = E} IsTidy (delete_pages bucket left)
  unfolding delete_pages
  delete_pages-IsTidy bucket zero = search keeps_rules
  delete_pages-IsTidy bucket (suc left) =
      page_round-IsTidy bucket _ (delete_pages-IsTidy bucket left)

  list_and_delete-IsTidy :
      (loc : Location) (loaded : Bool)
      → (loc.bucket === []) ≡ false
      → is_blank loc.prefix ≡ false
      → Keeps {E = E} IsTidy (list_and_delete loc loaded)
  unfolding list_and_delete
  list_and_delete-IsTidy loc false b p = search keeps_rules
  list_and_delete-IsTidy loc true b p =
      Keeps-bind _ _
        (list-IsTidy loc.bucket (trim_space loc.prefix) (not_empty-given loc.bucket b)
          (not_empty-given (trim_space loc.prefix) p))
        (delete_pages-IsTidy loc.bucket)

  connect_and_delete-IsTidy :
      (config : DeleteConfig) (loc : Location)
      → (loc.bucket === []) ≡ false
      → is_blank loc.prefix ≡ false
      → Keeps {E = E} IsTidy (connect_and_delete config loc)
  unfolding connect_and_delete
  connect_and_delete-IsTidy config loc b p =
      Keeps-bind _ _ (other-IsTidy (Call.load_aws_config _ _ _) refl)
        (λ loaded. list_and_delete-IsTidy loc loaded b p)

  delete_s3_prefix-IsTidy :
      (config : DeleteConfig) (loc : Location) → Keeps {E = E} IsTidy (delete_s3_prefix config loc)
  unfolding delete_s3_prefix
  delete_s3_prefix-IsTidy config loc = search (keeps_rules, connect_and_delete-IsTidy) depth 8

  delete_for_class-IsTidy :
      (cs : ControllerService) (namespace volume : Str) (r : Answer Dict)
      → Keeps {E = E} IsTidy (delete_for_class cs namespace volume r)
  unfolding delete_for_class
  delete_for_class-IsTidy cs namespace volume (refused text) = search keeps_rules
  delete_for_class-IsTidy cs namespace volume (got parameters) =
      search (keeps_rules, delete_configured-Keeps other-IsTidy delete_s3_prefix-IsTidy)

  delete_in_class-IsTidy :
      (cs : ControllerService) (namespace volume name : Str)
      → Keeps {E = E} IsTidy (delete_in_class cs namespace volume name)
  unfolding delete_in_class
  delete_in_class-IsTidy cs namespace volume [] = search keeps_rules
  delete_in_class-IsTidy cs namespace volume (c ∷ name) =
      search (keeps_rules, other-IsTidy, delete_for_class-IsTidy)

-- The deletion of a volume's data lists objects only in a bucket with a name and only under a prefix
-- that is not empty, and each request to delete objects comes directly after the reading of a page
-- and names just the keys of that page: if this holds of the calls made before, it holds of those
-- made by its end, whatever they reply and also when the deletion fails.
pub delete_volume_data_if_enabled-DeletesListed :
    {E : Env} (cs : ControllerService) (volume : Str) (s : Sys E)
    → DeletesListed s.log
    → DeletesListed (delete_volume_data_if_enabled cs volume s).1.log
unfolding delete_volume_data_if_enabled
delete_volume_data_if_enabled-DeletesListed cs volume s h =
    (delete_with_mounter-Keeps other-IsTidy cs volume
        (λ namespace. delete_in_class-IsTidy cs namespace volume) cs.mounter).holds
      s h
