-- ===== src/Wire/Types.antt =====
-- p9.go, errors.go, mode.go, qid.go, and the data of stat.go and fcall.go.
-- A Go string or byte slice is the list of its bytes; a uint8, uint16, uint32 or uint64 is a
-- number, whose range is a hypothesis where it matters.
use Prim.Native.Char.{code}
use Prim.Native.String.{String}
use p.Common.{ℕ, ◌≡◌, refl, ◌⊎◌, inl, inr, List, [], ◌∷◌, ◌++◌, Bool, not, bit_and}
use p.Common.Tests.{◌==◌, if◌then◌else◌}

-- The bytes of an ASCII text.
abbrev pub text : String → List ℕ
text String.[] = []
text (String.◌∷◌ c s) = code c ∷ text s

abbrev pub version : List ℕ
version = text "9P2000"

abbrev pub version_u : List ℕ
version_u = text "9P2000.u"

abbrev pub version_unknown : List ℕ
version_unknown = text "unknown"

abbrev pub default_msize : ℕ
default_msize = 8192

abbrev pub max_welem : ℕ
max_welem = 16

abbrev pub no_tag : ℕ
no_tag = 0xFFFF

abbrev pub no_fid : ℕ
no_fid = 0xFFFFFFFF

-- The errors of errors.go; `decoding t e` is the wrapped error of UnmarshalVersion, and `eof` and
-- `unexpected_eof` are io.EOF and io.ErrUnexpectedEOF of io.ReadFull.
pub data Error : Type 0 where
  truncated trailing_bytes msg_too_large unknown_type too_many_welem eof unexpected_eof : Error
  decoding : ℕ → Error → Error

pub data Result {ℓ} (A : Type ℓ) : Type ℓ where
  ok : A → Result A
  err : Error → Result A

pub Result-cases {ℓ} :
    {A : Type ℓ} (r : Result A) → ((a : A) × (r ≡ ok a)) ⊎ ((e : Error) × (r ≡ err e))
Result-cases (ok a) = inl (a, refl)
Result-cases (err e) = inr (e, refl)

abbrev pub oread : ℕ
oread = 0

abbrev pub owrite : ℕ
owrite = 1

abbrev pub ordwr : ℕ
ordwr = 2

abbrev pub oexec : ℕ
oexec = 3

abbrev pub otrunc : ℕ
otrunc = 0x10

abbrev pub orclose : ℕ
orclose = 0x40

abbrev pub dmdir : ℕ
dmdir = 0x80000000

abbrev pub dmappend : ℕ
dmappend = 0x40000000

abbrev pub dmexcl : ℕ
dmexcl = 0x20000000

abbrev pub dmtmp : ℕ
dmtmp = 0x04000000

abbrev pub dmsymlink : ℕ
dmsymlink = 0x02000000

abbrev pub qtdir : ℕ
qtdir = 0x80

abbrev pub qtappend : ℕ
qtappend = 0x40

abbrev pub qtexcl : ℕ
qtexcl = 0x20

abbrev pub qtmount : ℕ
qtmount = 0x10

abbrev pub qtauth : ℕ
qtauth = 0x08

abbrev pub qttmp : ℕ
qttmp = 0x04

abbrev pub qtsymlink : ℕ
qtsymlink = 0x02

abbrev pub qtfile : ℕ
qtfile = 0

-- `m&bits != 0`
abbrev pub has_bits : ℕ → ℕ → Bool
has_bits m bits = not (bit_and m bits == 0)

-- Mode.IsDir and Mode.IsSymlink.
unfoldable pub mode_is_dir : ℕ → Bool
mode_is_dir m = has_bits m dmdir

unfoldable pub mode_is_symlink : ℕ → Bool
mode_is_symlink m = has_bits m dmsymlink

pub record Qid : Type 0 where
  pub type : ℕ
  pub version : ℕ
  pub path : ℕ

-- Qid.IsDir and Qid.IsSymlink.
unfoldable pub qid_is_dir : Qid → Bool
qid_is_dir q = has_bits q.type qtdir

unfoldable pub qid_is_symlink : Qid → Bool
qid_is_symlink q = has_bits q.type qtsymlink

-- QidType.String: a letter for each bit, in the order of the source's tests.
unfoldable pub qid_type_string : ℕ → List ℕ
qid_type_string t =
    letter qtdir "d"
    ++ letter qtappend "a"
    ++ letter qtexcl "l"
    ++ letter qtsymlink "L"
    ++ letter qtmount "m"
    ++ letter qtauth "A"
    ++ letter qttmp "t"
  where
    letter : ℕ → String → List ℕ
    letter bit c = if has_bits t bit then text c else []

pub record Stat : Type 0 where
  pub type : ℕ
  pub dev : ℕ
  pub qid : Qid
  pub mode : ℕ
  pub atime : ℕ
  pub mtime : ℕ
  pub length : ℕ
  pub name : List ℕ
  pub uid : List ℕ
  pub gid : List ℕ
  pub muid : List ℕ
  pub extension : List ℕ
  pub nuid : ℕ
  pub ngid : ℕ
  pub nmuid : ℕ

-- The zero values of the two structs.
abbrev pub zero_qid : Qid
zero_qid = record { type = 0; version = 0; path = 0 }

abbrev pub zero_stat : Stat
zero_stat = record {
  type = 0;
  dev = 0;
  qid = zero_qid;
  mode = 0;
  atime = 0;
  mtime = 0;
  length = 0;
  name = [];
  uid = [];
  gid = [];
  muid = [];
  extension = [];
  nuid = 0;
  ngid = 0;
  nmuid = 0;
}

-- A message body, with a constructor for each struct of fcall.go and its fields in order
-- (RerrorFcall is in errors.go). Fids and tags are numbers.
pub data Message : Type 0 where
  tversion rversion : (msize : ℕ) (version : List ℕ) → Message
  tauth : (afid : ℕ) (uname aname : List ℕ) → Message
  rauth : (aqid : Qid) → Message
  tattach : (fid afid : ℕ) (uname aname : List ℕ) → Message
  rattach : (qid : Qid) → Message
  rerror : (ename : List ℕ) → Message
  tflush : (oldtag : ℕ) → Message
  rflush : Message
  twalk : (fid newfid : ℕ) (wname : List (List ℕ)) → Message
  rwalk : (wqid : List Qid) → Message
  topen : (fid mode : ℕ) → Message
  ropen : (qid : Qid) (iounit : ℕ) → Message
  tcreate : (fid : ℕ) (name : List ℕ) (perm mode : ℕ) (extension : List ℕ) → Message
  rcreate : (qid : Qid) (iounit : ℕ) → Message
  tread : (fid offset count : ℕ) → Message
  rread : (bytes : List ℕ) → Message
  twrite : (fid offset : ℕ) (bytes : List ℕ) → Message
  rwrite : (count : ℕ) → Message
  tclunk : (fid : ℕ) → Message
  rclunk : Message
  tremove : (fid : ℕ) → Message
  rremove : Message
  tstat : (fid : ℕ) → Message
  rstat : (stat : Stat) → Message
  twstat : (fid : ℕ) (stat : Stat) → Message
  rwstat : Message
