-- ===== src/Pool/Page.antt =====
-- pool.go: a pooled page, the pool's state, and the atomic operations on one page.
use browserpm.Common.{
  ℕ, suc, ◌+◌, Bool, true, false, not, ◌&&◌, List, [], ◌∷◌, ◌++◌, ◌==◌, ltb, String, if◌then◌else◌,
}
use browserpm.Common.Int.{ℤ, pos, ◌-ℤ◌, sub_ℕ, ltb_ℤ, wrap, word}
use browserpm.Config.{PoolConfig}

pub data PageState : Type 0 where
  idle closing closed : PageState

pub record PoolPage : Type 0 where
  pub page : ℕ
  pub id : String
  pub state : PageState
  pub created_at : ℕ
  pub last_used : ℕ
  pub active_ops : ℕ  -- the bit pattern of an int64
  pub use_count : ℕ  -- the same

abbrev pub is_idle : PageState → Bool
is_idle idle = true
is_idle _ = false

abbrev pub is_closing : PageState → Bool
is_closing closing = true
is_closing _ = false

abbrev pub is_closed_state : PageState → Bool
is_closed_state closed = true
is_closed_state _ = false

-- The test `activeOps.Load() > 0` of an int64.
abbrev pub is_busy : PoolPage → Bool
is_busy pp = ltb 0 pp.active_ops && ltb pp.active_ops 9223372036854775808

-- now.Sub(t) of two readings of the clock less than 292 years apart.
abbrev pub since : ℕ → ℕ → ℤ
since now t = sub_ℕ now t

-- (*poolPage).isAvailable.
unfoldable pub is_available : PoolConfig → ℕ → PoolPage → Bool
is_available cfg now pp =
    if not (is_idle pp.state)
    then false
    else if (ltb_ℤ (pos 0) cfg.ttl && ltb_ℤ (pos 0) cfg.grace_period)
        && ltb_ℤ (wrap (cfg.ttl -ℤ cfg.grace_period)) (since now pp.created_at)
    then false
    else true

-- PagePool, less its parameters: the configuration and the provider are those of the functions,
-- createPage is NewPage of `context`. `counter` is the scheduler's. `is_cancelled` is the state of
-- the pool's context, the flags say which background loops run, and `replacing` lists the pages for
-- which a goroutine was started that calls replacePage.
pub record Pool : Type 0 where
  pub pages : List ℕ
  pub store : ℕ → PoolPage
  pub next : ℕ
  pub counter : ℕ
  pub context : ℕ
  pub is_cancelled : Bool
  pub checker_runs : Bool
  pub reaper_runs : Bool
  pub replacing : List ℕ

abbrev pub update : (ℕ → PoolPage) → ℕ → PoolPage → ℕ → PoolPage
update f p v q = if p == q then v else f q

-- (*poolPage).setState.
unfoldable pub set_state : ℕ → PageState → Pool → Pool
set_state p st s = record s { store = update s.store p (record (s.store p) { state = st }) }

-- activeOps.Add(1), lastUsed.Store(now), useCount.Add(1), as in tryAcquire.
unfoldable pub touch : ℕ → ℕ → Pool → Pool
touch p now s = record s { store = update s.store p used }
  where
    pp : PoolPage
    pp = s.store p

    used : PoolPage
    used = record pp {
      active_ops = word (pp.active_ops + 1);
      last_used = now;
      use_count = word (pp.use_count + 1);
    }

-- activeOps.Add(1) and lastUsed.Store(now), as in Acquire on a page that it has just created.
unfoldable pub claim : ℕ → ℕ → Pool → Pool
claim p now s = record s { store = update s.store p claimed }
  where
    pp : PoolPage
    pp = s.store p

    claimed : PoolPage
    claimed = record pp { active_ops = word (pp.active_ops + 1); last_used = now }

-- Release: activeOps.Add(-1).
unfoldable pub release : ℕ → Pool → Pool
release p s = record s { store = update s.store p freed }
  where
    pp : PoolPage
    pp = s.store p

    freed : PoolPage
    freed = record pp { active_ops = word (pp.active_ops + 18446744073709551615) }

-- append(p.pages, pp).
unfoldable pub append_page : ℕ → Pool → Pool
append_page p s = record s { pages = s.pages ++ (p ∷ []) }

-- A new poolPage in a new cell.
unfoldable pub alloc : PoolPage → Pool → Pool
alloc pp s = record s { store = update s.store s.next pp; next = suc s.next }
