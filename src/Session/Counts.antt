-- ===== src/Session/Counts.antt =====
-- How many variables a response holds: the controller's check of `count` through the whole way of a
-- request for the variables of a frame or the globals.
use squirrel_debug_server.Base.{
  ℕ, ◌≤◌, ◌≡◌, refl, ap, sym, subst, Option, none, some, List, [], ◌∷◌, Text, length, map, arith,
  Option-cases, inl, inr,
}
use squirrel_debug_server.Data.{ReturnCode, PaginationInfo, Variable, VariableType}
use squirrel_debug_server.Debugger.{Debugger}
use squirrel_debug_server.Variables.Machine.{SquirrelApi, Machine}
use squirrel_debug_server.Variables.Types.{Platform}
use squirrel_debug_server.Variables.Frames.{get_stack_variables, get_global_variables}
use squirrel_debug_server.Variables.AnswerCounts.{
  get_stack_variables-AtMost, get_global_variables-AtMost,
}
use squirrel_debug_server.Server.Parameters.{QueryParams, pagination, pagination-bounds}
use squirrel_debug_server.Server.Responses.{
  Response, ResponseBody, variables, create_variable, create_return_code_response,
}
use squirrel_debug_server.Server.Controller.{
  Request, get_local, get_global, result_answer, with_pagination, handle,
}
use squirrel_debug_server.Session.{Session, on_machine, debugger_commands}

-- The request for the variables of a frame, or for the globals.
abbrev pub listing : Option ℕ → Text → QueryParams → Request
listing none path params = get_global path params
listing (some frame) path params = get_local frame path params

-- The variables that a response holds.
abbrev pub count_of : ResponseBody → ℕ
count_of (variables vs) = length vs
count_of _ = 0

-- The number that a request asks for, 100 if it gives none; a refused one asks for nothing.
abbrev pub size_of_page : Option PaginationInfo → ℕ
size_of_page none = 0
size_of_page (some page) = page.count

length-map : {A B : Type 0} (f : A → B) (xs : List A) → length (map f xs) ≡ length xs
length-map f [] = refl
length-map f (x ∷ xs) = omega (arith, length-map f xs)

module _ {S : Type 0} where
  abbrev answer_count : Option (Response × S) → ℕ
  answer_count none = 0
  answer_count (some (r, s)) = count_of r.body

  abbrev with_variables : Option ((ReturnCode × List Variable) × S) → Option (Response × S)
  with_variables o = result_answer (λ (vs : List Variable). variables (map create_variable vs)) o

  with_variables-le :
      (rc : ReturnCode) (vs : List Variable) (s : S)
      → answer_count (with_variables (some ((rc, vs), s))) ≤ length vs
  unfolding result_answer create_return_code_response
  with_variables-le rc vs s = ground (arith, length-map create_variable vs)

  with_variables-count :
      (n : ℕ) (o : Option ((ReturnCode × List Variable) × S))
      → ((rc : ReturnCode) (vs : List Variable) (s : S) → o ≡ some ((rc, vs), s) → length vs ≤ n)
      → answer_count (with_variables o) ≤ n
  unfolding result_answer
  with_variables-count n none few = omega arith
  with_variables-count n (some ((rc, vs), s)) few =
      omega (arith, with_variables-le rc vs s, few rc vs s refl)

  with_pagination_page :
      (params : QueryParams) (page : PaginationInfo) (s : S)
      (serve : PaginationInfo → Option (Response × S))
      → pagination params ≡ some page
      → with_pagination params serve s ≡ serve page
  unfolding with_pagination
  with_pagination_page params page s serve given = rw (with_pagination, given) refl

  with_pagination_refused :
      (params : QueryParams) (s : S) (serve : PaginationInfo → Option (Response × S))
      → pagination params ≡ none
      → answer_count (with_pagination params serve s) ≡ 0
  unfolding with_pagination create_return_code_response
  with_pagination_refused params s serve refused = rw (answer_count, with_pagination, refused) refl

  abbrev count_in : Option ((ReturnCode × List Variable) × S) → ℕ
  count_in none = 0
  count_in (some (r, s)) = length r.1

on_machine-count :
    {Object Heap : Type 0} (n : ℕ) (d : Debugger)
    (o : Option ((ReturnCode × List Variable) × Machine Object Heap))
    → ((rc : ReturnCode) (vs : List Variable) (m : Machine Object Heap)
        → o ≡ some ((rc, vs), m)
        → length vs ≤ n)
    → (rc : ReturnCode) (vs : List Variable) (s : Session Object Heap)
    → on_machine (λ (r : ReturnCode × List Variable). r) d o ≡ some ((rc, vs), s)
    → length vs ≤ n
on_machine-count n d none few rc vs s e = ground (arith, e)
on_machine-count n d (some ((rc', vs'), m)) few rc vs s e =
    omega (arith, few rc' vs' m refl, ap count_in e)

module _ {Object Heap : Type 0} (lower : Text → Text) (platform : Platform)
    (bit_index : VariableType → ℕ) (api : SquirrelApi Object Heap) (f : ℕ) where
  abbrev answered : Request → Session Object Heap → Option (Response × Session Object Heap)
  answered request s = handle (debugger_commands lower platform bit_index api f) request s

  page_listing-count :
      (frame : Option ℕ) (path : Text) (params : QueryParams) (page : PaginationInfo) (d : Debugger)
      (m : Machine Object Heap)
      → pagination params ≡ some page
      → answer_count (answered (listing frame path params) (d, m)) ≤ page.count
  unfolding handle
  page_listing-count none path params page d m given =
      let o = get_global_variables platform bit_index api f path page d m in
      let few =
        with_variables-count page.count (on_machine (λ (r : ReturnCode × List Variable). r) d o) (
          on_machine-count page.count d o (λ rc vs m'.
            get_global_variables-AtMost platform bit_index api f path page d m m' rc vs)) in
      let served : answered (listing none path params) (d, m)
          ≡ with_variables (on_machine (λ r. r) d o) =
        with_pagination_page params page (d, m)
          (λ pg.
            with_variables
              (on_machine (λ r. r) d (get_global_variables platform bit_index api f path pg d m)))
          given in
      subst (λ x. answer_count x ≤ page.count) (sym served) few
  page_listing-count (some frame) path params page d m given =
      let o = get_stack_variables platform bit_index api f frame path page d m in
      let few =
        with_variables-count page.count (on_machine (λ (r : ReturnCode × List Variable). r) d o) (
          on_machine-count page.count d o (λ rc vs m'.
            get_stack_variables-AtMost platform bit_index api f frame path page d m m' rc vs)) in
      let served : answered (listing (some frame) path params) (d, m)
          ≡ with_variables (on_machine (λ r. r) d o) =
        with_pagination_page params page (d, m)
          (λ pg. with_variables (
            on_machine (λ r. r) d (get_stack_variables platform bit_index api f frame path pg d m)))
          given in
      subst (λ x. answer_count x ≤ page.count) (sym served) few

  refused_listing-count :
      (frame : Option ℕ) (path : Text) (params : QueryParams) (s : Session Object Heap)
      → pagination params ≡ none
      → answer_count (answered (listing frame path params) s) ≡ 0
  unfolding handle
  refused_listing-count none path params s refused = with_pagination_refused params s _ refused
  refused_listing-count (some frame) path params s refused =
      with_pagination_refused params s _ refused

  -- A response to a request for the variables of a frame or for the globals, whatever its path and
  -- parameters are, holds at most as many variables as the request asks for, and so never more than 1000.
  pub handle-count_of :
      (frame : Option ℕ) (path : Text) (params : QueryParams) (s s' : Session Object Heap)
      (r : Response)
      → answered (listing frame path params) s ≡ some (r, s')
      → (count_of r.body ≤ size_of_page (pagination params)) × (count_of r.body ≤ 1000)
  unfolding handle
  handle-count_of frame path params (d, m) s' r e = elim (Option-cases (pagination params)) [
    | inl refused ↦
        let empty : count_of r.body ≡ 0 =
          omega
            (arith, refused_listing-count frame path params (d, m) refused, ap answer_count e) in
        (omega (arith, empty), omega (arith, empty))
    | inr (page, given) ↦
        let few : count_of r.body ≤ page.count =
          omega (arith, page_listing-count frame path params page d m given, ap answer_count e) in
        (
          omega (arith, few, ap size_of_page given),
          omega (arith, few, (pagination-bounds params page given).0),
        )
  ]
