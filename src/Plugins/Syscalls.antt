-- ===== src/Plugins/Syscalls.antt =====
-- api/plugin_support.c: what a callback sees and sets of a system call.
use mambo.Base.{
  ℕ, ◌≡◌, refl, true, false, not, ◌&&◌, ◌||◌, Option, none, some, List, ◌==◌, if◌then◌else◌, get_or,
  set, ℤ, pos, minus_one, Outcome, ok, assert, ◌>>◌, Returns,
}
use mambo.Plugins.{Context, pre_syscall_c, post_syscall_c}

-- a0, by its place in the array.
abbrev pub reg0 : ℕ
reg0 = 10

-- The result of a getter, or none for -1.
unfoldable pub mambo_syscall_get_no : Context → Option ℕ
mambo_syscall_get_no ctx =
    if (ctx.event_type == pre_syscall_c) || (ctx.event_type == post_syscall_c)
    then some ctx.syscall.number
    else none

-- None for NULL.
unfoldable pub mambo_syscall_get_args : Context → Option (List ℕ)
mambo_syscall_get_args ctx = if ctx.event_type == pre_syscall_c then some ctx.syscall.regs else none

abbrev with_ret : Context → ℕ → Context
with_ret ctx ret = record ctx { syscall = record ctx.syscall { ret = ret } }

unfoldable pub mambo_syscall_bypass : Context → Outcome (ℤ × Context)
mambo_syscall_bypass ctx =
    let replaced = record ctx.syscall { replace = true; ret = get_or ctx.syscall.regs reg0 0 } in
    if ctx.event_type == pre_syscall_c
    then (assert (not ctx.syscall.replace) >> ok (pos 0, record ctx { syscall = replaced }))
    else ok (minus_one, ctx)

unfoldable pub mambo_syscall_get_return : Context → Option ℕ
mambo_syscall_get_return ctx =
    if ctx.event_type == post_syscall_c
    then some (get_or ctx.syscall.regs reg0 0)
    else if (ctx.event_type == pre_syscall_c) && ctx.syscall.replace
    then some ctx.syscall.ret
    else none

unfoldable pub mambo_syscall_set_return : Context → ℕ → ℤ × Context
mambo_syscall_set_return ctx ret =
    let regs = set ctx.syscall.regs reg0 ret in
    if ctx.event_type == post_syscall_c
    then (pos 0, record ctx { syscall = record ctx.syscall { regs = regs } })
    else if (ctx.event_type == pre_syscall_c) && ctx.syscall.replace
    then (pos 0, with_ret ctx ret)
    else (minus_one, ctx)

-- Before a system call that is not bypassed there is no return value to get or to set. Once it is
-- bypassed, the first argument is returned, and then what is set last; the arguments stay.
mambo_syscall_bypass_lem :
    (ctx : Context) (ret : ℕ)
    → ctx.event_type ≡ pre_syscall_c
    → ctx.syscall.replace ≡ false
    → (mambo_syscall_get_return ctx ≡ none)
      × (mambo_syscall_set_return ctx ret ≡ (minus_one, ctx))
      × Returns (mambo_syscall_bypass ctx) λ r.
        (r.0 ≡ pos 0)
        × (mambo_syscall_get_return r.1 ≡ some (get_or ctx.syscall.regs reg0 0))
        × ((mambo_syscall_set_return r.1 ret).0 ≡ pos 0)
        × (mambo_syscall_get_return (mambo_syscall_set_return r.1 ret).1 ≡ some ret)
        × (mambo_syscall_get_args (mambo_syscall_set_return r.1 ret).1 ≡ some ctx.syscall.regs)
unfolding mambo_syscall_get_return mambo_syscall_set_return mambo_syscall_bypass
    mambo_syscall_get_args
mambo_syscall_bypass_lem ctx ret before whole =
    let bypassed : Context = record ctx {
      event_type = pre_syscall_c;
      syscall = record ctx.syscall { replace = true; ret = get_or ctx.syscall.regs reg0 0 };
    } in
    rw (before, whole) (refl, refl, ((pos 0, bypassed), refl, (refl, refl, refl, refl, refl)))
