-- ===== src/Node/Stats/Df.antt =====
-- pkg/csi/node.go: the reading of what `df -B1` prints.
use zerofs_csi_driver.Base.{
  ℕ, zero, suc, ◌≢◌, ◌≡◌, refl, ◌^◌, ◌<◌, false, some, [], ◌∷◌, ◌++◌, Str, codes, ◌==◌, All-append,
  All-map,
}
use zerofs_csi_driver.Base.Text.{fields, is_space}
use zerofs_csi_driver.Base.Text.Fields.{
  Lacks, IsWord, spaces, split-line, fields-word, solid-Lacks_newline,
}
use zerofs_csi_driver.Base.Text.Decimal.{
  pos, parse_int, format_int, format_nat, parse_int-format_int,
}
use zerofs_csi_driver.Base.Text.Decimal.Digits.{format_nat-IsWord}
use zerofs_csi_driver.Host.{Env, Sys, Call, ok, perform, pure, ◌>>=◌}
use zerofs_csi_driver.Node.Request.{given}
use zerofs_csi_driver.Node.Stats.{
  StatsRequest, VolumeUsage, all_parsed, usage_of_fields, usage_of_lines, parse_df, returned,
  node_get_volume_stats,
}

-- A row of the table: the source, three numbers of bytes, each with spaces behind it, and the rest of
-- the line. A gap counts the spaces after the first.
pub record Row : Type 0 where
  pub source : Str
  pub total : ℕ
  pub used : ℕ
  pub available : ℕ
  pub gaps : ℕ × ℕ × ℕ × ℕ
  pub rest : Str

abbrev pub padded : Str → ℕ → Str → Str
padded word gap s = word ++ (spaces (suc gap) ++ s)

abbrev pub line_of : Row → Str
line_of r = padded r.source r.gaps.0 (
    padded (format_nat r.total) r.gaps.1
      (padded (format_nat r.used) r.gaps.2 (padded (format_nat r.available) r.gaps.3 r.rest)))

-- A header, a row, and whatever follows.
abbrev pub df_text : Str → Row → Str → Str
df_text header r more = header ++ (b'\n' ∷ (line_of r ++ (b'\n' ∷ more)))

pub record IsRow (r : Row) : Type 0 where
  pub source : IsWord r.source
  pub rest : Lacks b'\n' r.rest
  pub total : r.total < 2 ^ 63
  pub used : r.used < 2 ^ 63
  pub available : r.available < 2 ^ 63

abbrev pub usage_in : Row → VolumeUsage
usage_in r = record { total = pos r.total; used = pos r.used; available = pos r.available }

spaces-Lacks : (n : ℕ) → Lacks b'\n' (spaces n)
spaces-Lacks zero = tt
spaces-Lacks (suc n) = (refl, spaces-Lacks n)

padded-Lacks :
    (word : Str) (gap : ℕ) (s : Str) → IsWord word → Lacks b'\n' s → Lacks b'\n' (padded word gap s)
padded-Lacks word gap s h k =
    All-append (λ c. (c == b'\n') ≡ false) word _
      (All-map (λ c. is_space c ≡ false) (λ c. (c == b'\n') ≡ false) solid-Lacks_newline word
        h.solid)
      (All-append (λ c. (c == b'\n') ≡ false) (spaces (suc gap)) s (spaces-Lacks (suc gap)) k)

line_of-Lacks : (r : Row) → IsRow r → Lacks b'\n' (line_of r)
line_of-Lacks r h = padded-Lacks _ _ _ h.source (
    padded-Lacks _ _ _ (format_nat-IsWord r.total) (
      padded-Lacks _ _ _ (format_nat-IsWord r.used)
        (padded-Lacks _ _ _ (format_nat-IsWord r.available) h.rest)))

fields-line_of :
    (r : Row)
    → IsRow r
    → fields (line_of r)
      ≡ r.source ∷ format_nat r.total ∷ format_nat r.used ∷ format_nat r.available ∷ fields r.rest
fields-line_of r h =
    rw
      (
        fields-word r.source _ r.gaps.0 h.source,
        fields-word (format_nat r.total) _ r.gaps.1 (format_nat-IsWord r.total),
        fields-word (format_nat r.used) _ r.gaps.2 (format_nat-IsWord r.used),
        fields-word (format_nat r.available) _ r.gaps.3 (format_nat-IsWord r.available),
      )
      refl

parse_int-format_nat : (n : ℕ) → n < 2 ^ 63 → parse_int (format_nat n) ≡ some (pos n)
unfolding format_int
parse_int-format_nat n h = parse_int-format_int (pos n) h

parse_df-df_text :
    (header more : Str) (r : Row)
    → Lacks b'\n' header
    → IsRow r
    → parse_df (df_text header r more) ≡ ok (usage_in r)
unfolding parse_df usage_of_lines usage_of_fields all_parsed
parse_df-df_text header more r k h =
    rw
      (
        split-line b'\n' header (line_of r ++ (b'\n' ∷ more)) k,
        split-line b'\n' (line_of r) more (line_of-Lacks r h),
        fields-line_of r h,
        parse_int-format_nat r.total h.total,
        parse_int-format_nat r.used h.used,
        parse_int-format_nat r.available h.available,
      )
      refl

given-passed : {E : Env} (message s : Str) → s ≢ [] → given {E = E} message s ≡ pure tt
unfolding given
given-passed message [] h = absurd (h refl)
given-passed message (c ∷ s) h = refl

-- If `df` succeeds and prints a header line, a row and any more text, and the row is a source without
-- white space, the total, the used and the available bytes below 2^63 in decimal, each with one or more
-- spaces behind it, and any rest of the line, then NodeGetVolumeStats returns these three numbers.
-- The identifier and the path of the volume are not empty.
pub node_get_volume_stats-reads :
    {E : Env} (req : StatsRequest) (s : Sys E) (header more : Str) (r : Row)
    → req.volume_id ≢ []
    → req.volume_path ≢ []
    → Lacks b'\n' header
    → IsRow r
    → (E.answer (Call.exec (codes "df") (codes "-B1" ∷ req.volume_path ∷ [])) s.world).0
      ≡ record { text = df_text header r more; failed = false }
    → (node_get_volume_stats req s).0 ≡ ok (usage_in r)
unfolding node_get_volume_stats perform pure returned ◌>>=◌
node_get_volume_stats-reads {E} req s header more r given_id given_path k h e =
    rw
      (
        given-passed {E = E} (codes "volume ID cannot be empty") req.volume_id given_id,
        given-passed {E = E} (codes "volume path cannot be empty") req.volume_path given_path,
        e,
        parse_df-df_text header more r k h,
      )
      refl
