-- ===== src/Stream/Flow.antt =====
-- src/message_stream/flow_controller.cpp: the quotas of reading and writing. A quota is an `int` of
-- the source, whose overflow is undefined there; here it is an integer without bounds, and Rates says
-- when none overflows. An amount, which is a size or a throughput, is not negative. Each loop
-- around `atomic_comp_swap` ends with the swap of the value that it last read, so that it is one
-- step.
pub mod Rates
use gb_server.Base.{leb, if◌then◌else◌, ℤ, pos, negsuc, leb_ℤ, ℕ, ◌+◌, ◌-◌, Bool, ◌||◌}
use gb_server.Stream.Split.{remaining}

pub record Quota : Type 0 where
  pub no_limit : Bool
  pub quota : ℤ

pub record FlowController : Type 0 where
  pub read : Quota
  pub write : Quota

abbrev pub add_ℕ : ℤ → ℕ → ℤ
add_ℕ (pos m) n = pos (m + n)
add_ℕ (negsuc m) n = if leb n m then negsuc (m - n) else pos (n - m - 1)

abbrev pub is_positive : ℤ → Bool
is_positive z = leb_ℤ (pos 1) z

unfoldable pub reset : Bool → ℤ → Quota → Quota
reset no_limit quota q = record { no_limit = no_limit; quota = quota }

unfoldable pub recharge : ℕ → Quota → Quota
recharge amount q =
    if q.no_limit
    then q
    else record q { quota = if is_positive q.quota then pos amount else add_ℕ q.quota amount }

unfoldable pub has_quota : Quota → Bool
has_quota q = q.no_limit || is_positive q.quota

-- The result and the quota afterwards.
unfoldable pub acquire : ℕ → Quota → ℤ × Quota
acquire amount q = if q.no_limit then (pos 1, q) else (
  q.quota,
  record q {
    quota = if is_positive q.quota then remaining q.quota amount else remaining q.quota 1;
  },
)

unfoldable pub reset_read_quota : Bool → ℤ → FlowController → FlowController
reset_read_quota no_limit quota c = record c { read = reset no_limit quota c.read }

unfoldable pub reset_write_quota : Bool → ℤ → FlowController → FlowController
reset_write_quota no_limit quota c = record c { write = reset no_limit quota c.write }

unfoldable pub recharge_read_quota : ℕ → FlowController → FlowController
recharge_read_quota amount c = record c { read = recharge amount c.read }

unfoldable pub recharge_write_quota : ℕ → FlowController → FlowController
recharge_write_quota amount c = record c { write = recharge amount c.write }

unfoldable pub has_read_quota : FlowController → Bool
has_read_quota c = has_quota c.read

unfoldable pub has_write_quota : FlowController → Bool
has_write_quota c = has_quota c.write

unfoldable pub acquire_read_quota : ℕ → FlowController → ℤ × FlowController
acquire_read_quota amount c =
    let (result, q) = acquire amount c.read in (result, record c { read = q })

unfoldable pub acquire_write_quota : ℕ → FlowController → ℤ × FlowController
acquire_write_quota amount c =
    let (result, q) = acquire amount c.write in (result, record c { write = q })
