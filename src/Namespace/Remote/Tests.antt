-- ===== src/Namespace/Remote/Tests.antt =====
-- The methods of a remote file on two servers, one of which refuses to clunk the root.
use p.Common.{refl, [], false, some, none, arith}
use p.Common.Tests.{◌==◌, if◌then◌else◌, ne→==}
use p.Wire.Types.{tclunk, rclunk, zero_stat}
use p.Client.Rpc.{Rpc, replied, rpc_failed}
use p.Client.Walk.Batches.{AgreeOn}
use p.Namespace.Remote.{Remote}
use p.Namespace.Remote.Calls.{SparesRoot}
use p.Namespace.Remote.Anchor.{SameMethods, methods-Agree}

abbrev lax : Rpc (Unit {0})
lax s m = (s, replied rclunk)

abbrev strict : Rpc (Unit {0})
strict s (tclunk fid) = (s, if fid == 1 then rpc_failed [] else replied rclunk)
strict s m = (s, replied rclunk)

lax-AgreeOn : AgreeOn (SparesRoot 1) lax strict
lax-AgreeOn s (tclunk fid) h = rw (ne→== fid 1 h) refl
lax-AgreeOn s m h = refl

abbrev remote : Remote (Unit {0})
remote = record {
  files = λ f. record { fid = 2; path = []; st = zero_stat; opened = none };
  made = 1;
  client = record { msize = 8192; unix = false; next_fid = 2; root = some 1 };
  conn = tt;
}

methods-Agree_example : SameMethods 1 lax strict remote 0
methods-Agree_example =
    methods-Agree 1 lax strict lax-AgreeOn remote 0 (λ e. omega (arith, e)) (λ e. omega (arith, e))
