-- ===== src/Wasm/Interp/Valid.antt =====
-- The well-formedness of the interpreter's state, and the rules by which an operation keeps it.
use wasm_os.Base.{
  ℕ, zero, suc, [], ◌∷◌, ◌+◌, ◌-◌, ◌*◌, ◌≤◌, Bool, true, false, List, Option, none, some, leb, ◌==◌,
  if◌then◌else◌, set, length, All, length-set, All-set, All-get_or, ◌≡◌, refl, ◌∙◌, arith,
}
use wasm_os.Wasm.Interp.State.{
  Interpreter, Frame, CtrlFrame, HostFn, InterpError, Res, ok, err, panic, hang, M, pure, fail,
  ◌>>=◌, ◌>>◌, modify, gets, ok_or, after, index, fail_if, v_push, v_pop, ctrl_push, current_frame,
  update_frame, set_pc, read_u32_at, stack_depth, call_depth, max_ctrl_depth, max_locals,
  max_globals, page_size, blank_frame,
}

pub record IsFrame (f : Frame) : Type 0 where
  pub locals_size : length f.locals ≡ max_locals
  pub locals_bound : f.local_count ≤ max_locals
  pub ctrl_base_bound : f.ctrl_base ≤ max_ctrl_depth
  pub vsp_base_bound : f.vsp_base ≤ stack_depth

-- What `run` relies on in a host function: it leaves a stack of the same size with the pointer
-- inside, and does not shrink the memory.
unfoldable pub IsHost : HostFn → Type 0
IsHost h =
    (vstack : List ℕ) (vsp : ℕ) (mem : List ℕ)
    → length vstack ≡ stack_depth
    → vsp ≤ stack_depth
    → (length (h vstack vsp mem).vstack ≡ stack_depth)
      × ((h vstack vsp mem).vsp ≤ stack_depth)
      × (length mem ≤ length (h vstack vsp mem).mem)

unfoldable pub IsSlot : Option HostFn → Type 0
IsSlot none = Unit
IsSlot (some h) = IsHost h

-- An array of `size` places with a pointer to the first free one.
pub record IsArray {A : Type 0} (xs : List A) (free size : ℕ) : Type 0 where
  pub size_eq : length xs ≡ size
  pub bound : free ≤ size

pub record IsMemory (active pages : ℕ) (mem : List ℕ) : Type 0 where
  pub cached : active ≡ pages * page_size
  pub inside : active ≤ length mem

pub record IsValid (s : Interpreter) : Type 0 where
  pub stack : IsArray s.vstack s.vsp stack_depth
  pub frames : IsArray s.frames s.fdepth call_depth
  pub each_frame : All IsFrame s.frames
  pub ctrl : IsArray s.ctrl s.ctrl_depth max_ctrl_depth
  pub globals_size : length s.globals ≡ max_globals
  pub memory : IsMemory s.active_mem s.current_pages s.mem
  pub hosts : All IsSlot s.code.host_fns

-- The state that an operation leaves, with an error or without, is well formed.
unfoldable pub Keeps : {A : Type 0} → Res A → Type 0
Keeps (ok a s) = IsValid s
Keeps (err e s) = IsValid s
Keeps panic = Unit
Keeps hang = Unit

pub record Preserves {A : Type 0} (m : M A) : Type 0 where
  pub keeps : (s : Interpreter) → IsValid s → Keeps (m s)

module _ {A : Type 0} where
  pub pure-Preserves : (a : A) → Preserves (pure a)
  unfolding Keeps
  pure-Preserves a = record { keeps = λ s h. h }

  pub fail-Preserves : (e : InterpError) → Preserves {A = A} (fail e)
  unfolding Keeps
  fail-Preserves e = record { keeps = λ s h. h }

  pub gets-Preserves : (f : Interpreter → A) → Preserves (gets f)
  unfolding Keeps
  gets-Preserves f = record { keeps = λ s h. h }

  pub ok_or-Preserves : (o : Option A) (e : InterpError) → Preserves (ok_or o e)
  unfolding Keeps
  ok_or-Preserves none e = record { keeps = λ s h. h }
  ok_or-Preserves (some a) e = record { keeps = λ s h. h }

  pub index-Preserves : (xs : List A) (i : ℕ) → Preserves (index xs i)
  unfolding Keeps
  index-Preserves xs i = record { keeps = λ s h. ground arith }

  pub if-Preserves :
      (b : Bool) {m n : M A} → Preserves m → Preserves n → Preserves (if b then m else n)
  if-Preserves true h k = h
  if-Preserves false h k = k

  after-Keeps :
      {B : Type 0} (r : Res B) (f : B → M A)
      → Keeps r
      → ((b : B) → Preserves (f b))
      → Keeps (after r f)
  unfolding Keeps
  after-Keeps (ok a s) f h k = (k a).keeps s h
  after-Keeps (err e s) f h k = h
  after-Keeps panic f h k = tt
  after-Keeps hang f h k = tt

  pub >>=-Preserves :
      {B : Type 0} {m : M B} {f : B → M A}
      → Preserves m
      → ((b : B) → Preserves (f b))
      → Preserves (m >>= f)
  >>=-Preserves {m = m} {f = f} h k = record { keeps = λ s v. after-Keeps (m s) f (h.keeps s v) k }

pub fail_if-Preserves : (b : Bool) (e : InterpError) → Preserves (fail_if b e)
unfolding Keeps
fail_if-Preserves true e = record { keeps = λ s h. h }
fail_if-Preserves false e = record { keeps = λ s h. h }

-- Both branches keep the state, each where its test says so.
pub if-Keeps :
    {A : Type 0} (b : Bool) (x y : Res A)
    → (b ≡ true → Keeps x)
    → (b ≡ false → Keeps y)
    → Keeps (if b then x else y)
if-Keeps true x y h k = h refl
if-Keeps false x y h k = k refl

-- The same where something follows the test.
pub if_in-Keeps :
    {A B : Type 0} (k : Res A → Res B) (b : Bool) (x y : Res A)
    → (b ≡ true → Keeps (k x))
    → (b ≡ false → Keeps (k y))
    → Keeps (k (if b then x else y))
if_in-Keeps k true x y h j = h refl
if_in-Keeps k false x y h j = j refl

-- What follows a guard may use that the guard let it pass.
pub fail_if-Keeps :
    {A : Type 0} (b : Bool) (e : InterpError) (m : M A) (s : Interpreter)
    → IsValid s
    → (b ≡ false → Keeps (m s))
    → Keeps ((fail_if b e >> m) s)
unfolding Keeps
fail_if-Keeps true e m s h k = h
fail_if-Keeps false e m s h k = k refl

pub index->>=-Preserves :
    {A B : Type 0} {P : A → Type 0} (xs : List A) (i : ℕ) (f : A → M B)
    → All P xs
    → ((a : A) → P a → Preserves (f a))
    → Preserves (index xs i >>= f)
unfolding Keeps
index->>=-Preserves [] i f h k = record { keeps = λ s v. tt }
index->>=-Preserves (x ∷ xs) zero f h k = k x h.0
index->>=-Preserves {P = P} (x ∷ xs) (suc i) f h k = index->>=-Preserves {P = P} xs i f h.1 k

-- A write in front of the free place.
pub set-IsArray :
    {A : Type 0} {xs : List A} {free size : ℕ} (i : ℕ) (v : A)
    → IsArray xs free size
    → IsArray (set xs i v) free size
set-IsArray {xs = xs} i v h = record { size_eq = length-set xs i v ∙ h.size_eq; bound = h.bound }

pub move-IsArray :
    {A : Type 0} {xs : List A} {free size : ℕ} (n : ℕ)
    → n ≤ size
    → IsArray xs free size
    → IsArray xs n size
move-IsArray n k h = record { size_eq = h.size_eq; bound = k }

pub v_push-Preserves : (v : ℕ) → Preserves (v_push v)
unfolding Keeps v_push
v_push-Preserves v = record {
  keeps = λ s h.
      if-Keeps (leb stack_depth s.vsp) _ _ (λ _. h)
        (λ low. record {
          stack = move-IsArray (s.vsp + 1) (ground arith) (set-IsArray s.vsp v h.stack);
          frames = h.frames;
          each_frame = h.each_frame;
          ctrl = h.ctrl;
          globals_size = h.globals_size;
          memory = h.memory;
          hosts = h.hosts;
        });
}

pub v_pop-Preserves : Preserves v_pop
unfolding Keeps v_pop
v_pop-Preserves = record {
  keeps = λ s h.
      if-Keeps (s.vsp == 0) _ _ (λ _. h)
        (λ low. record {
          stack = move-IsArray (s.vsp - 1) (omega (arith, h.stack.bound)) h.stack;
          frames = h.frames;
          each_frame = h.each_frame;
          ctrl = h.ctrl;
          globals_size = h.globals_size;
          memory = h.memory;
          hosts = h.hosts;
        });
}

pub read_u32_at-Preserves : (body : List ℕ) (pc : ℕ) → Preserves (read_u32_at body pc)
unfolding Keeps read_u32_at
read_u32_at-Preserves body pc = record { keeps = λ s h. ground arith }

pub ctrl_push-Preserves : (cf : CtrlFrame) → Preserves (ctrl_push cf)
unfolding Keeps ctrl_push
ctrl_push-Preserves cf = record {
  keeps = λ s h.
      if-Keeps (leb max_ctrl_depth s.ctrl_depth) _ _ (λ _. h)
        (λ low. record {
          stack = h.stack;
          frames = h.frames;
          each_frame = h.each_frame;
          ctrl =
              move-IsArray (s.ctrl_depth + 1) (ground arith) (set-IsArray s.ctrl_depth cf h.ctrl);
          globals_size = h.globals_size;
          memory = h.memory;
          hosts = h.hosts;
        });
}

pub blank_frame-IsFrame : IsFrame blank_frame
blank_frame-IsFrame = record {
  locals_size = refl;
  locals_bound = omega arith;
  ctrl_base_bound = omega arith;
  vsp_base_bound = omega arith;
}

pub current_frame-IsFrame : (s : Interpreter) → IsValid s → IsFrame (current_frame s)
current_frame-IsFrame s h =
    All-get_or IsFrame s.frames (s.fdepth - 1) blank_frame h.each_frame blank_frame-IsFrame

pub update_frame-IsValid :
    (f : Frame → Frame) (s : Interpreter)
    → ((x : Frame) → IsFrame x → IsFrame (f x))
    → IsValid s
    → IsValid (update_frame f s)
update_frame-IsValid f s k h = record {
  stack = h.stack;
  frames = set-IsArray (s.fdepth - 1) (f (current_frame s)) h.frames;
  each_frame =
      All-set IsFrame s.frames (s.fdepth - 1) (f (current_frame s)) h.each_frame
        (k (current_frame s) (current_frame-IsFrame s h));
  ctrl = h.ctrl;
  globals_size = h.globals_size;
  memory = h.memory;
  hosts = h.hosts;
}

pub modify-Preserves :
    (f : Interpreter → Interpreter)
    → ((s : Interpreter) → IsValid s → IsValid (f s))
    → Preserves (modify f)
unfolding Keeps
modify-Preserves f k = record { keeps = λ s h. k s h }

pub set_pc-IsFrame : (pc : ℕ) (x : Frame) → IsFrame x → IsFrame (record x { pc = pc })
set_pc-IsFrame pc x k = record {
  locals_size = k.locals_size;
  locals_bound = k.locals_bound;
  ctrl_base_bound = k.ctrl_base_bound;
  vsp_base_bound = k.vsp_base_bound;
}

pub set_pc-Preserves : (pc : ℕ) → Preserves (set_pc pc)
unfolding set_pc
set_pc-Preserves pc =
    modify-Preserves (update_frame (λ f. record f { pc = pc }))
      (λ s h. update_frame-IsValid (λ f. record f { pc = pc }) s (set_pc-IsFrame pc) h)

pub ruleset preserves_rules = (
  pure-Preserves, fail-Preserves, gets-Preserves, ok_or-Preserves, index-Preserves, if-Preserves,
  >>=-Preserves, fail_if-Preserves, v_push-Preserves, v_pop-Preserves, read_u32_at-Preserves,
  ctrl_push-Preserves, set_pc-Preserves,
)
