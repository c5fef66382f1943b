-- ===== src/FunctionWatch.antt =====
-- elf/symbol_parser.c, function_watch_*: the functions that plugins watch, and the addresses at which
-- they stand. A name is the address of a string, and `same` tells whether `strcmp` gives 0. A mutex
-- is whether it is locked; to lock it again waits for ever. Barriers are left out.
pub mod Locks
pub mod Invalidate
mod Tests
use mambo.Base.{
  ℕ, zero, suc, ◌+◌, ◌-◌, Bool, true, false, ◌&&◌, ◌||◌, Option, none, some, List, ltb, leb, ◌==◌,
  if◌then◌else◌, get_or, set, ℤ, pos, negsuc, is_zero, minus_one, Outcome, ok, abort, hang, assert,
  ◌>>=◌, ◌>>◌,
}

abbrev pub max_watched_funcs : ℕ
max_watched_funcs = 40

abbrev pub max_watched_func_ptrs : ℕ
max_watched_func_ptrs = 80

-- `watched_func_t`; a null pointer is 0.
pub record WatchedFunc : Type 0 where
  pub name : ℕ
  pub plugin_id : ℕ
  pub pre_callback : ℕ
  pub post_callback : ℕ

-- `watched_funcp_t`; `func` is an index into the functions.
pub record WatchedFuncp : Type 0 where
  pub func : ℕ
  pub addr : ℕ

-- `watched_functions_t`
pub record Watched : Type 0 where
  pub funcs : List WatchedFunc
  pub func_count : ℕ
  pub funcs_lock : Bool
  pub funcps : List WatchedFuncp
  pub funcp_count : ℕ
  pub funcps_lock : Bool

abbrev pub no_func : WatchedFunc
no_func = record { name = 0; plugin_id = 0; pre_callback = 0; post_callback = 0 }

abbrev pub no_funcp : WatchedFuncp
no_funcp = record { func = 0; addr = 0 }

unfoldable pub function_watch_lock_funcs : Watched → Outcome Watched
function_watch_lock_funcs self =
    if self.funcs_lock then hang else ok (record self { funcs_lock = true })

unfoldable pub function_watch_lock_funcps : Watched → Outcome Watched
function_watch_lock_funcps self =
    if self.funcps_lock then hang else ok (record self { funcps_lock = true })

abbrev pub function_watch_unlock_funcs : Watched → Watched
function_watch_unlock_funcs self = record self { funcs_lock = false }

abbrev pub function_watch_unlock_funcps : Watched → Watched
function_watch_unlock_funcps self = record self { funcps_lock = false }

-- The address of an entry of the table.
abbrev pub funcp_at : Watched → ℕ → WatchedFuncp
funcp_at self i = get_or self.funcps i no_funcp

module _ (same : ℕ → ℕ → Bool) where
  -- Whether one of the functions from `i` on has the name.
  unfoldable pub search_rounds : ℕ → Watched → ℕ → ℕ → Bool
  search_rounds zero self name i = false
  search_rounds (suc left) self name i =
      same name (get_or self.funcs i no_func).name || search_rounds left self name (suc i)

  unfoldable pub function_watch_search : Watched → ℕ → Bool
  function_watch_search self name = search_rounds self.func_count self name 0

  unfoldable pub function_watch_add : Watched → ℕ → ℕ → ℕ → ℕ → Outcome (ℤ × Watched)
  function_watch_add self name plugin_id pre_callback post_callback =
      function_watch_lock_funcs self >>= λ self₁.
      let idx = self₁.func_count in
      let self₂ : Watched = record self₁ { func_count = suc idx } in
      let func : WatchedFunc = record {
        name = name;
        plugin_id = plugin_id;
        pre_callback = pre_callback;
        post_callback = post_callback;
      } in
      let self₃ : Watched = record self₂ { funcs = set self₂.funcs idx func } in
      if function_watch_search self₁ name
      then ok (negsuc 100, self₁)
      else if leb max_watched_funcs idx
      then ok (negsuc 101, self₂)
      else ok (pos 0, function_watch_unlock_funcs self₃)

-- Whether one of the entries from `i` on has the function and the address.
unfoldable pub known_rounds : ℕ → Watched → ℕ → ℕ → ℕ → Bool
known_rounds zero self func addr i = false
known_rounds (suc left) self func addr i =
    (funcp_at self i).func == func && (funcp_at self i).addr == addr
    || known_rounds left self func addr (suc i)

unfoldable pub function_watch_addp : Watched → ℕ → ℕ → Outcome (ℤ × Watched)
function_watch_addp self func addr = function_watch_lock_funcps self >>= λ self₁.
    let idx = self₁.funcp_count in
    let self₂ : Watched = record self₁ {
      funcps = set self₁.funcps idx (record { func = func; addr = addr });
      funcp_count = suc idx;
    } in
    if known_rounds idx self₁ func addr 0
    then ok (pos 0, function_watch_unlock_funcps self₁)
    else if leb max_watched_func_ptrs idx
    then ok (negsuc 1, function_watch_unlock_funcps self₁)
    else ok (pos 0, function_watch_unlock_funcps self₂)

module _ (same : ℕ → ℕ → Bool) where
  unfoldable pub try_rounds : ℕ → Watched → ℕ → ℕ → ℕ → Outcome Watched
  try_rounds zero self name addr i = ok self
  try_rounds (suc left) self name addr i =
      let added =
        function_watch_addp self i addr >>= λ (ret, self₁). assert (is_zero ret) >> ok self₁ in
      let here = if same name (get_or self.funcs i no_func).name then added else ok self in
      here >>= λ self₁. try_rounds left self₁ name addr (suc i)

  unfoldable pub function_watch_try_addp : Watched → ℕ → ℕ → Outcome Watched
  function_watch_try_addp self name addr = function_watch_lock_funcs self >>= λ self₁.
      try_rounds self₁.func_count self₁ name addr 0 >>= λ self₂.
      ok (function_watch_unlock_funcs self₂)

-- The last entry is moved into the place of the deleted one. None is -1.
unfoldable pub function_watch_delete_addp : Watched → ℕ → Option Watched
function_watch_delete_addp self i =
    let last = self.funcp_count - 1 in
    let moved = set self.funcps i (funcp_at self last) in
    if ltb last i || (self.funcp_count == 0)
    then none
    else some
        (record self { funcps = if ltb i last then moved else self.funcps; funcp_count = last })

-- `left` bounds the rounds: the count that the loop begins with is enough.
unfoldable pub invalidate_rounds : ℕ → Watched → ℕ → ℕ → ℕ → ℤ → Outcome (ℤ × Watched)
invalidate_rounds zero self addr size i ret =
    if ltb i self.funcp_count then hang else ok (ret, self)
invalidate_rounds (suc left) self addr size i ret =
    let at = (funcp_at self i).addr in
    let deleted : Outcome (ℤ × Watched) = elim (function_watch_delete_addp self i) [
      | none ↦ abort
      | some self₁ ↦ invalidate_rounds left self₁ addr size (suc i) (pos 0)
    ] in
    let kept = invalidate_rounds left self addr size (suc i) ret in
    if ltb i self.funcp_count
    then (if leb addr at && ltb at (addr + size) then deleted else kept)
    else ok (ret, self)

unfoldable pub function_watch_addp_invalidate : Watched → ℕ → ℕ → Outcome (ℤ × Watched)
function_watch_addp_invalidate self addr size = function_watch_lock_funcps self >>= λ self₁.
    invalidate_rounds self₁.funcp_count self₁ addr size 0 minus_one >>= λ (ret, self₂).
    ok (ret, function_watch_unlock_funcps self₂)
