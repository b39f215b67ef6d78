-- ===== src/Compiler/Printer/Programs.antt =====
-- Printed contracts are read back by the parser of crates/compiler/src/lib.rs.
use ppsc.Base.{
  ℕ, zero, suc, ◌+◌, ◌*◌, ◌<◌, ◌≡◌, refl, ap, ◌∙◌, Bool, true, Option, none, some, List, [], ◌∷◌,
  ◌++◌, length, arith, All, String,
}
use mathlib.Core.List.{append_assoc, append-nil}
use ppsc.Manifest.Types.{ValueType}
use ppsc.Compiler.Syntax.{ident, symbol, eof, Token, Tokens, Param, StateDecl, Function, Program}
use ppsc.Compiler.Outcome.{done}
use ppsc.Compiler.Parser.{
  consume_symbol, parse_symbol, consume_keyword, parse_keyword, parse_ident, value_type,
}
use ppsc.Compiler.Declarations.{
  state_decl, param, more_params, params, function, declarations, program, parse,
}
use ppsc.Compiler.Printer.{
  Kinds, stamp, lengths, length-kinds, is_spelled, type_text, print_more_params, print_params,
  print_state, print_states, print_function, print_functions, print_program,
}
use ppsc.Compiler.Printer.Statements.{is_printable, parse_type-type_text, statements-Reads}
use ppsc.Base.{if◌then◌else◌}
use ppsc.Base.{◌==◌}
use ppsc.Base.{sym}

abbrev pub is_spelled_key : Option ValueType → Bool
is_spelled_key none = true
is_spelled_key (some ty) = is_spelled ty

abbrev pub IsPrintableState : StateDecl → Type 0
IsPrintableState d = (is_spelled d.ty ≡ true) × (is_spelled_key d.key_ty ≡ true)

abbrev pub IsPrintableFunction : Function → Type 0
IsPrintableFunction g =
    All (λ p. is_spelled p.ty ≡ true) g.params × All (λ s. is_printable s ≡ true) g.body

-- The parts of a program whose types have names in the language, and whose statements begin with no
-- reserved word of their own.
abbrev pub IsPrintable : Program → Type 0
IsPrintable p = All IsPrintableState p.states × All IsPrintableFunction p.functions

reads_type :
    (ty : ValueType) (o : ℕ → ℕ) (ks : Kinds)
    → is_spelled ty ≡ true
    → value_type (stamp o (ident (type_text ty) ∷ ks)) ≡ done (ty, stamp o ks)
unfolding value_type parse_ident
reads_type ty o ks h = rw (parse_type-type_text ty h) refl

parts-Reads :
    (n : String) (ty : ValueType) (key : Option ValueType) (o : ℕ → ℕ) (ks : Kinds)
    → let d : StateDecl = record { name = n; ty = ty; key_ty = key } in
      IsPrintableState d → state_decl (stamp o (print_state d ++ ks)) ≡ done (d, stamp o ks)
unfolding state_decl print_state parse_ident consume_symbol parse_symbol
parts-Reads n ty none o ks (h, hk) = rw (reads_type ty o (ident n ∷ symbol b';' ∷ ks) h) refl
parts-Reads n ty (some key) o ks (h, hk) =
    rw
      (reads_type ty o
        (ident n ∷ symbol b'[' ∷ ident (type_text key) ∷ symbol b']' ∷ symbol b';' ∷ ks) h)
      (rw (reads_type key o (symbol b']' ∷ symbol b';' ∷ ks) hk) refl)

state-Reads :
    (d : StateDecl) (o : ℕ → ℕ) (ks : Kinds)
    → IsPrintableState d
    → state_decl (stamp o (print_state d ++ ks)) ≡ done (d, stamp o ks)
state-Reads d o ks h = parts-Reads d.name d.ty d.key_ty o ks h

param-Reads :
    (p : Param) (o : ℕ → ℕ) (ks : Kinds)
    → is_spelled p.ty ≡ true
    → param (stamp o (ident (type_text p.ty) ∷ ident p.name ∷ ks)) ≡ done (p, stamp o ks)
unfolding param parse_ident
param-Reads p o ks h = rw (reads_type p.ty o (ident p.name ∷ ks) h) refl

more_params-Reads :
    (p : Param) (ps : List Param) (o : ℕ → ℕ) (ks : Kinds) (f : ℕ)
    → All (λ p. is_spelled p.ty ≡ true) (p ∷ ps)
    → length (print_more_params ps) < f
    → more_params f (stamp o (ident (type_text p.ty) ∷ ident p.name ∷ (print_more_params ps ++ ks)))
      ≡ done (p ∷ ps, stamp o ks)
unfolding more_params print_more_params consume_symbol parse_symbol
more_params-Reads p ps o ks zero hs h = absurd (omega arith)
more_params-Reads p [] o ks (suc f) (hp, hs) h = rw (param-Reads p o (symbol b')' ∷ ks) hp) refl
more_params-Reads p (q ∷ ps) o ks (suc f) (hp, hs) h =
    rw (param-Reads p o (print_more_params (q ∷ ps) ++ ks) hp)
      (rw (more_params-Reads q ps o ks f hs (omega (lengths, h))) refl)

params-Reads :
    (ps : List Param) (o : ℕ → ℕ) (ks : Kinds) (f : ℕ)
    → All (λ p. is_spelled p.ty ≡ true) ps
    → length (print_params ps) < f
    → params f (stamp o (print_params ps ++ ks)) ≡ done (ps, stamp o ks)
unfolding params print_params consume_symbol
params-Reads [] o ks f hs h = refl
params-Reads (p ∷ ps) o ks f hs h = more_params-Reads p ps o ks f hs (omega (lengths, h))

function-Reads :
    (g : Function) (o : ℕ → ℕ) (ks : Kinds) (f : ℕ)
    → IsPrintableFunction g
    → 3 * length (print_function g) < f
    → function f (stamp o (print_function g ++ ks)) ≡ done (g, stamp o ks)
unfolding function print_function parse_ident parse_symbol consume_symbol parse_keyword
    consume_keyword
function-Reads g o ks f (hp, hb) h = rw append_assoc (
    rw (params-Reads g.params o _ f hp (omega (lengths, h)))
      (rw (statements-Reads g.body o ks f hb (omega (lengths, h))) refl))

-- Each declaration is at least a token, and its tokens stand before those of the others.
length-print_functions :
    (g : Function) (gs : List Function) (ks : Kinds)
    → length (print_functions (g ∷ gs) ++ ks)
      ≡ suc (length (print_function g) + length (print_functions gs ++ ks))
unfolding print_functions
length-print_functions g gs ks =
    rw append_assoc (ap suc (length-kinds (print_function g) (print_functions gs ++ ks)))

length-print_states :
    (d : StateDecl) (ds : List StateDecl) (ks : Kinds)
    → length (print_states (d ∷ ds) ++ ks)
      ≡ suc (length (print_state d) + length (print_states ds ++ ks))
unfolding print_states
length-print_states d ds ks =
    rw append_assoc (ap suc (length-kinds (print_state d) (print_states ds ++ ks)))

length-print_state : (d : StateDecl) → 2 < length (print_state d)
unfolding print_state
length-print_state d = omega (lengths)

length-print_function : (g : Function) → 2 < length (print_function g)
unfolding print_function
length-print_function g = omega (lengths)

functions-Reads :
    (gs : List Function) (ss : List StateDecl) (fs : List Function) (o : ℕ → ℕ) (ks : Kinds) (f : ℕ)
    → All IsPrintableFunction gs
    → 3 * length (print_functions gs ++ symbol b'}' ∷ []) < f
    → declarations f ss fs (stamp o (print_functions gs ++ symbol b'}' ∷ ks))
      ≡ done ((ss, fs ++ gs), stamp o ks)
unfolding declarations print_functions consume_symbol consume_keyword
functions-Reads gs ss fs o ks zero hs h = absurd (omega arith)
functions-Reads [] ss fs o ks (suc f) hs h = rw append-nil refl
functions-Reads (g ∷ gs) ss fs o ks (suc f) (hg, hs) h = rw append_assoc (
    rw
      (function-Reads g o (print_functions gs ++ symbol b'}' ∷ ks) f hg
        (omega (lengths, h, length-print_functions g gs (symbol b'}' ∷ []))))
      (rw
        (functions-Reads gs ss (fs ++ g ∷ []) o ks f hs (
          omega
            (lengths, h, length-print_functions g gs (symbol b'}' ∷ []), length-print_function g)))
        (rw append_assoc refl)))

states-Reads :
    (ds : List StateDecl) (gs : List Function) (ss : List StateDecl) (o : ℕ → ℕ) (ks : Kinds)
    (f : ℕ)
    → All IsPrintableState ds
    → All IsPrintableFunction gs
    → 3 * length (print_states ds ++ (print_functions gs ++ symbol b'}' ∷ [])) < f
    → declarations f ss [] (stamp o (print_states ds ++ (print_functions gs ++ symbol b'}' ∷ ks)))
      ≡ done ((ss ++ ds, gs), stamp o ks)
unfolding declarations print_states consume_symbol consume_keyword
states-Reads ds gs ss o ks zero hs hg h = absurd (omega arith)
states-Reads [] gs ss o ks (suc f) hs hg h =
    rw append-nil (functions-Reads gs ss [] o ks (suc f) hg h)
states-Reads (d ∷ ds) gs ss o ks (suc f) (hd, hs) hg h = rw append_assoc (
    rw (state-Reads d o (print_states ds ++ (print_functions gs ++ symbol b'}' ∷ ks)) hd) (
      rw
        (states-Reads ds gs (ss ++ d ∷ []) o ks f hs hg (
          omega (
            lengths,
            h,
            length-print_states d ds (print_functions gs ++ symbol b'}' ∷ []),
            length-print_state d,
          )))
        (rw append_assoc refl)))

abbrev pub kinds_of : Tokens → Kinds
kinds_of [] = []
kinds_of (t ∷ ts) = t.kind ∷ kinds_of ts

length-kinds_of : (ts : Tokens) → length (kinds_of ts) ≡ length ts
length-kinds_of [] = refl
length-kinds_of (t ∷ ts) = ap suc (length-kinds_of ts)

program-Reads :
    (p : Program) (o : ℕ → ℕ) (f : ℕ)
    → IsPrintable p
    → 3 * length (print_program p) < f
    → program f (stamp o (print_program p)) ≡ done (p, stamp o (eof ∷ []))
unfolding program print_program parse_ident parse_symbol consume_symbol parse_keyword
    consume_keyword
program-Reads p o f (hs, hg) h =
    rw (states-Reads p.states p.functions [] o (eof ∷ []) f hs hg (omega (lengths, h))) refl

-- Every token sequence is its kinds at some offsets.
offset_at : Tokens → ℕ → ℕ
offset_at [] n = 0
offset_at (t ∷ ts) n = if n == length ts then t.offset else offset_at ts n

stamp-agree :
    (o o' : ℕ → ℕ) (ks : Kinds) → ((n : ℕ) → n < length ks → o n ≡ o' n) → stamp o ks ≡ stamp o' ks
stamp-agree o o' [] h = refl
stamp-agree o o' (k ∷ ks) h =
    cc (h (length ks) (omega arith), stamp-agree o o' ks λ n less. h n (omega (arith, less)))

offset_at-cons :
    (t : Token) (ts : Tokens) (n : ℕ)
    → n < length (kinds_of ts)
    → offset_at (t ∷ ts) n ≡ offset_at ts n
unfolding offset_at
offset_at-cons t ts n less = ground (arith, less, length-kinds_of ts)

offset_at-length : (t : Token) (ts : Tokens) → offset_at (t ∷ ts) (length (kinds_of ts)) ≡ t.offset
unfolding offset_at
offset_at-length t ts = ground (arith, length-kinds_of ts)

stamp-kinds : (ts : Tokens) → stamp (offset_at ts) (kinds_of ts) ≡ ts
stamp-kinds [] = refl
stamp-kinds (t ∷ ts) =
    let agree =
      stamp-agree (offset_at (t ∷ ts)) (offset_at ts) (kinds_of ts) (offset_at-cons t ts) in
    cc (offset_at-length t ts, agree, stamp-kinds ts)

-- When the kinds of the tokens are those that spell a program, up to the end of the input and
-- whatever their offsets, parsing them gives exactly that program. The types in the program must
-- have names in the language, and none of its assignments and expression statements may begin
-- with `require`, `return` or the name of a type.
pub parse-print_program :
    (p : Program) (ts : Tokens) → IsPrintable p → kinds_of ts ≡ print_program p → parse ts ≡ done p
unfolding parse
parse-print_program p ts h same =
    let o = offset_at ts in
    let spelled : ts ≡ stamp o (print_program p) = sym (stamp-kinds ts) ∙ ap (stamp o) same in
    let whole =
      program-Reads p o (3 * length ts + 4) h (omega (arith, ap length same, length-kinds_of ts)) in
    rw (rw (sym spelled) at whole) refl
