-- ===== src/EndToEnd/Tests.antt =====
-- The listing of the sample directory.
use Prim.Native.Nat.{min}
use p.Common.{◌<◌, ◌^◌, ◌≡◌, refl, inr, [], false, some, arith}
use p.Common.Maps.{lookup, insert}
use p.Common.Lists.{length, All}
use p.Common.Bytes.{le_bytes}
use p.Common.Names.{same_bytes}
use p.Wire.Types.{text, no_tag, no_fid, version_u, tversion, rversion, tattach, rattach}
use p.Wire.Encode.{put_string, put_qid, cut_string, cut_to}
use p.Wire.Forward.{IsQid}
use p.Wire.Fcall.Types.{msg_type}
use p.Wire.Fcall.Encode.{marshal_body}
use p.Wire.Framing.{marshal_rest, marshal_version}
use p.Wire.Stat.{marshal_unix, marshal_stat_body, put_stat}
use p.Wire.Stat.RoundTrip.{FitsFields, FitsStat}
use p.Server.Conn.{max_msize, get_fid, put_fid, new_conn}
use p.Server.Dir.Contract.{encode_dir}
use p.Server.Sample.{entry_a, entry_bc, sample_entries, sample, sample_conn}
use p.Client.ReadDir.{max_io, listed, read_dir}
use p.Client.Session.{attach}
use p.EndToEnd.Wire.{wire_rpc, IsWithin}
use p.EndToEnd.Session.{Agrees, Attached, connect, session-Agrees}
use p.EndToEnd.Listing.{server_rpc, EachFits, read_dir-IsDir}

-- Fid 7 is known, and 9P2000.u is off.
sample_fid : get_fid sample_conn 7 ≡ some 0
unfolding get_fid put_fid lookup insert
sample_fid = refl

entry_a-FitsFields : FitsFields false entry_a
entry_a-FitsFields = record {
  type = omega arith;
  dev = omega arith;
  qid = record { type = omega arith; version = omega arith; path = omega arith };
  mode = omega arith;
  atime = omega arith;
  mtime = omega arith;
  length = omega arith;
  name = omega arith;
  uid = omega arith;
  gid = omega arith;
  muid = omega arith;
  unix = (refl, refl, refl, refl);
}

entry_bc-FitsFields : FitsFields false entry_bc
entry_bc-FitsFields = record {
  type = omega arith;
  dev = omega arith;
  qid = entry_a-FitsFields.qid;
  mode = omega arith;
  atime = omega arith;
  mtime = omega arith;
  length = omega arith;
  name = omega arith;
  uid = omega arith;
  gid = omega arith;
  muid = omega arith;
  unix = (refl, refl, refl, refl);
}

sample-FitsStat : All (FitsStat false) sample_entries
unfolding marshal_stat_body marshal_unix put_string put_qid cut_string cut_to le_bytes
sample-FitsStat = (
  record { fields = entry_a-FitsFields; size = omega arith },
  (record { fields = entry_bc-FitsFields; size = omega arith }, tt),
)

-- With an msize of 80 a request reads 56 bytes, which hold one entry.
sample-EachFits : EachFits false (max_io 80 0) sample_entries
unfolding max_io put_stat marshal_stat_body marshal_unix put_string put_qid cut_string cut_to
    le_bytes
sample-EachFits = (omega arith, (omega arith, tt))

sample-IsShort : length (encode_dir false sample_entries) < 2 ^ 63
unfolding put_stat marshal_stat_body marshal_unix put_string put_qid cut_string cut_to le_bytes
sample-IsShort = omega arith

read_dir-IsDir_example :
    (read_dir (server_rpc sample) 7 sample_conn.unix 80 0 3 (sample_conn, tt)).1
    ≡ listed sample_entries
unfolding put_fid new_conn
read_dir-IsDir_example =
    read_dir-IsDir sample 7 80 0 3 sample_conn tt 0 sample_entries sample_fid
      (λ w offset count small. refl) sample-FitsStat sample-EachFits (omega arith) sample-IsShort
      (omega arith)

root_qid : IsQid (sample.qid tt 0)
root_qid = record { type = omega arith; version = omega arith; path = omega arith }

tversion-IsWithin : IsWithin sample_conn.msize no_tag (tversion 4096 version_u) sample_conn.unix
unfolding marshal_version marshal_rest marshal_body msg_type le_bytes put_string cut_string cut_to
    put_fid new_conn max_msize
tversion-IsWithin = inr (omega arith)

rversion-IsWithin :
    IsWithin 4096 no_tag (rversion (min 4096 (max_msize sample_conn.srv_msize)) version_u) false
unfolding marshal_version marshal_rest marshal_body msg_type le_bytes put_string cut_string cut_to
rversion-IsWithin = inr (omega arith)

tattach-IsWithin :
    IsWithin
      (min 4096 (max_msize sample_conn.srv_msize))
      1
      (tattach 1 no_fid (text "me") [])
      (same_bytes version_u version_u)
unfolding marshal_version marshal_rest marshal_body msg_type le_bytes put_string cut_string cut_to
    put_fid new_conn max_msize
tattach-IsWithin = inr (omega arith)

rattach-IsWithin :
    IsWithin
      (min 4096 (max_msize sample_conn.srv_msize))
      1
      (rattach (sample.qid tt 0))
      (same_bytes version_u version_u)
unfolding marshal_version marshal_rest marshal_body msg_type le_bytes put_qid put_fid new_conn
    max_msize
rattach-IsWithin = inr (omega arith)

session-Agrees_example :
    (a : Agrees sample 4096 version_u sample_conn tt
      (connect sample (λ s. s) sample_conn tt 4096 version_u))
    × Attached sample
        (attach
          (wire_rpc sample 1 a.client.msize a.client.unix)
          (connect sample (λ s. s) sample_conn tt 4096 version_u).0
          a.client
          (text "me")
          [])
        0
session-Agrees_example =
    session-Agrees sample (λ s. s) sample_conn tt 4096 1 version_u (text "me") [] 0 tt (omega arith)
      (omega arith) (inr refl) refl (omega arith) (omega arith) root_qid tversion-IsWithin
      rversion-IsWithin tattach-IsWithin rattach-IsWithin
