-- ===== src/Server/Sample.antt =====
-- A small backend for tests: file 0 is a directory of two entries, in which file 1 is named `a`.
use p.Common.{ℕ, List, [], ◌∷◌, none}
use p.Common.Tests.{◌==◌, if◌then◌else◌}
use p.Common.Int.{pos}
use p.Wire.Types.{text, zero_qid, zero_stat, Stat}
use p.Server.Backend.{Outcome, okay, failed, Backend}
use p.Server.Conn.{Conn, new_conn, put_fid}
use p.Server.Dir.{marshal_dir_version, as_read}

abbrev pub entry_a : Stat
entry_a = record zero_stat { name = text "a" }

abbrev pub entry_bc : Stat
entry_bc = record zero_stat { name = text "bc"; length = 5 }

abbrev pub sample_entries : List Stat
sample_entries = entry_a ∷ entry_bc ∷ []

abbrev pub not_found : Outcome ℕ
not_found = failed (text "no such file")

abbrev pub sample_walk : List ℕ → Outcome ℕ
sample_walk (c ∷ []) = if c == 97 then okay 1 else not_found
sample_walk name = not_found

abbrev pub sample : Backend ℕ (Unit {0})
sample = record {
  attach = λ u w uname aname. (w, okay 0);
  qid = λ w f. record zero_qid { path = f };
  stat = λ u w f. (w, okay zero_stat);
  wstat = λ u w f st. (w, failed (text "read only"));
  walk = λ u w f name. (w, sample_walk name);
  open_file = λ u w f mode. (w, okay tt);
  create = λ u w f name perm mode. (w, failed (text "read only"));
  read =
      λ u w f offset count. (w, as_read (marshal_dir_version sample_entries (pos offset) count u));
  write = λ u w f offset bytes. (w, failed (text "read only"));
  remove = λ u w f. (w, failed (text "read only"));
  close = λ w f. (w, okay tt);
  symlink = λ f. none;
  clone = λ f. none;
}

-- A connection on which fid 7 is attached to the directory.
abbrev pub sample_conn : Conn ℕ
sample_conn = put_fid (new_conn 0) 7 0
