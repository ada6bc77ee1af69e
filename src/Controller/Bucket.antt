-- ===== src/Controller/Bucket.antt =====
-- pkg/csi/s3_cleanup.go: the objects of a volume in the bucket, and their deletion. `url.Parse` is a
-- parameter.
pub mod Prefix
use zerofs_csi_driver.Base.{
  ℕ, zero, suc, Bool, true, false, not, ◌&&◌, Option, none, some, List, [], ◌∷◌, Str, codes, ◌==◌,
  ◌===◌, trim_space, is_blank, if◌then◌else◌,
}
use zerofs_csi_driver.Base.Text.{has_prefix, trim_prefix, trim_by, or_default}
use zerofs_csi_driver.Base.FilePath.{join_path}
use zerofs_csi_driver.Host.{
  Env, Exec, Call, Answer, got, refused, unknown, perform, pure, fail, ◌>>=◌, ◌>>◌,
}

-- What `url.Parse` gives of a URL: scheme, host and path.
pub record Url : Type 0 where
  pub scheme : Str
  pub host : Str
  pub path : Str

-- `s3DeleteConfig`; `UsePathStyle` is always true.
pub record DeleteConfig : Type 0 where
  pub endpoint : Str
  pub region : Str
  pub allow_http : Bool
  pub access_key_id : Str
  pub secret_key : Str

pub record Location : Type 0 where
  pub bucket : Str
  pub prefix : Str

module _ {E : Env} where
  unfoldable pub location_in : Option Url → Exec E Location
  location_in none = fail unknown (codes "parse storageURL")
  location_in (some u) =
      if u.scheme === codes "s3"
      then if u.host === []
        then fail unknown (codes "storageURL missing bucket")
        else pure (record { bucket = u.host; prefix = trim_prefix u.path (codes "/") })
      else fail unknown (codes "unsupported storageURL scheme")

  unfoldable pub parse_s3_location : (Str → Option Url) → Str → Exec E Location
  parse_s3_location parse_url storage_url = location_in (parse_url storage_url)

-- `strings.Trim(strings.TrimSpace(s), "/")`
unfoldable pub trim_slashes : Str → Str
trim_slashes s = trim_by (λ c. c == b'/') (trim_space s)

unfoldable pub join_s3_prefix : Str → Str → Str
unfolding trim_slashes
join_s3_prefix base_prefix volume =
    if trim_slashes base_prefix === []
    then trim_slashes volume
    else join_path (trim_slashes base_prefix ∷ trim_slashes volume ∷ [])

-- The keys that are there and are not "".
pub keys_of : List (Option Str) → List Str
keys_of [] = []
keys_of (none ∷ objects) = keys_of objects
keys_of (some [] ∷ objects) = keys_of objects
keys_of (some (c ∷ key) ∷ objects) = (c ∷ key) ∷ keys_of objects

module _ {E : Env} where
  unfoldable pub done_or_fail : Answer Unit → Exec E Unit
  done_or_fail (got _) = pure tt
  done_or_fail (refused text) = fail unknown (codes "delete objects")

  unfoldable pub delete_page : Str → List (Option Str) → Exec E Unit
  delete_page bucket [] = pure tt
  delete_page bucket (object ∷ objects) = do
    answer ← perform (Call.delete_objects bucket (keys_of (object ∷ objects)))
    done_or_fail answer

  unfoldable pub handle_page : Str → Answer (List (Option Str)) → Exec E Unit
  handle_page bucket (refused text) = fail unknown (codes "list objects")
  handle_page bucket (got objects) = delete_page bucket objects

  unfoldable pub read_page : Str → Exec E Unit
  read_page bucket = do page ← perform Call.next_page; handle_page bucket page

  -- A round of the loop, and the rest of it.
  unfoldable pub page_round : Str → Exec E Unit → Exec E Unit
  page_round bucket next = do read_page bucket; next

  -- The pages that are left.
  unfoldable pub delete_pages : Str → ℕ → Exec E Unit
  delete_pages bucket zero = pure tt
  delete_pages bucket (suc left) = page_round bucket (delete_pages bucket left)

  unfoldable pub list_and_delete : Location → Bool → Exec E Unit
  list_and_delete loc false = fail unknown (codes "aws config")
  list_and_delete loc true = do
    pages ← perform (Call.list_objects loc.bucket (trim_space loc.prefix))
    delete_pages loc.bucket pages

  unfoldable pub connect_and_delete : DeleteConfig → Location → Exec E Unit
  connect_and_delete config loc = do
    loaded ← perform (
        Call.load_aws_config (or_default config.region (codes "us-east-1")) config.access_key_id
          config.secret_key)
    list_and_delete loc loaded

  unfoldable pub delete_s3_prefix : DeleteConfig → Location → Exec E Unit
  delete_s3_prefix config loc =
      if config.endpoint === []
      then fail unknown (codes "missing aws endpoint")
      else if not config.allow_http && has_prefix config.endpoint (codes "http://")
      then fail unknown (codes "refusing to use insecure endpoint")
      else if loc.bucket === []
      then fail unknown (codes "missing bucket")
      else if is_blank loc.prefix
      then fail unknown (codes "refusing to delete empty prefix")
      else connect_and_delete config loc
