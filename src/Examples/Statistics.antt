-- ===== src/Examples/Statistics.antt =====
-- The theorem on the statistics of a volume, applied.
use zerofs_csi_driver.Base.{◌≡◌, refl, false, [], ◌≢◌, Str, codes, arith}
use zerofs_csi_driver.Base.Text.{is_space}
use zerofs_csi_driver.Base.Text.Fields.{lacks-Lacks}
use zerofs_csi_driver.Host.{Env, ok}
use zerofs_csi_driver.Node.Stats.{StatsRequest, node_get_volume_stats}
use zerofs_csi_driver.Node.Stats.Df.{Row, IsRow, df_text, usage_in, node_get_volume_stats-reads}
use zerofs_csi_driver.Examples.Machine.{no_files, machine, start}
use zerofs_csi_driver.Examples.Requests.{absent_pod}
use zerofs_csi_driver.Examples.Paths.{v1_given, t_given}

abbrev row : Row
row = record {
  source = codes "/dev/nbd2";
  total = 1024;
  used = 24;
  available = 1000;
  gaps = (6, 2, 3, 1);
  rest = codes "3% /t";
}

abbrev header : Str
header = codes "Filesystem 1B-blocks Used Available Use% Mounted on"

-- A machine where every program prints the table.
abbrev counting : Env
counting =
    machine 0 (λ program args. record { text = df_text header row []; failed = false }) absent_pod

abbrev request : StatsRequest
request = record { volume_id = codes "v1"; volume_path = codes "/t" }

nbd2_given : codes "/dev/nbd2" ≢ []
nbd2_given e = absurd (cc)

row-IsRow : IsRow row
unfolding is_space
row-IsRow = record {
  source = record {
    given = nbd2_given;
    solid = (refl, (refl, (refl, (refl, (refl, (refl, (refl, (refl, (refl, tt)))))))));
  };
  rest = (refl, (refl, (refl, (refl, (refl, tt)))));
  total = omega arith;
  used = omega arith;
  available = omega arith;
}

node_get_volume_stats-reads_example :
    (node_get_volume_stats {E = counting} request (start no_files)).0 ≡ ok (usage_in row)
node_get_volume_stats-reads_example =
    node_get_volume_stats-reads {E = counting} request (start no_files) header [] row v1_given
      t_given (lacks-Lacks b'\n' header refl) row-IsRow refl
