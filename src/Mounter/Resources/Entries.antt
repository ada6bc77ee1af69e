-- ===== src/Mounter/Resources/Entries.antt =====
-- pkg/csi/zerofs.go: the requests and limits that a pod gets, by what is asked for in its config map.
use zerofs_csi_driver.Base.{
  ◌≡◌, ◌↔◌, refl, sym, ap, ◌∙◌, Bool, true, false, ◌&&◌, Option, none, some, Str, [], ◌∷◌, codes,
  ◌===◌, if◌then◌else◌, arith, Bool-cases, inl, inr, subst, ===_iff,
}
use zerofs_csi_driver.Base.Text.{Dict, value_of, lookup, lookup-insert}
use zerofs_csi_driver.Kube.{Quantity, Resources}
use zerofs_csi_driver.Mounter.Resources.{
  or_new, put_parsed, put_quantity, parse_resource_requirements,
}

pub data Side : Type 0 where
  request limit : Side

-- What is asked for under an entry of the config map: nothing if it is empty or cannot be parsed.
abbrev pub asked_by : (Str → Option Quantity) → Str → Option Quantity
asked_by parse [] = none
asked_by parse (c ∷ text) = parse (c ∷ text)

-- The entry of the config map for a side and a resource.
abbrev pub entry_of : Dict → Side → Str → Str
entry_of config request name =
    if codes "cpu" === name
    then value_of (codes "cpuRequest") config
    else if codes "memory" === name
    then value_of (codes "memoryRequest") config
    else []
entry_of config limit name =
    if codes "cpu" === name
    then value_of (codes "cpuLimit") config
    else if codes "memory" === name
    then value_of (codes "memoryLimit") config
    else []

abbrev pub get : Str → Option Dict → Option Quantity
get name none = none
get name (some list) = lookup name list

-- What a pod with these resources has; nothing if they are nil.
abbrev pub granted : Option Resources → Side → Str → Option Quantity
granted none side name = none
granted (some r) request name = get name r.requests
granted (some r) limit name = get name r.limits

or_else : Option Quantity → Option Quantity → Option Quantity
or_else none other = other
or_else (some q) other = some q

or_else-none : (q : Option Quantity) → or_else q none ≡ q
unfolding or_else
or_else-none none = refl
or_else-none (some q) = refl

cpu-not_memory : (key : Str) → (codes "cpu" === key) ≡ true → (codes "memory" === key) ≡ false
cpu-not_memory key h =
    subst (λ (k : Str). (codes "memory" === k) ≡ false) ((===_iff (codes "cpu") key).0 h) refl

get-or_new : (name : Str) (list : Option Dict) → lookup name (or_new list) ≡ get name list
unfolding or_new
get-or_new name none = refl
get-or_new name (some list) = refl

get-put_parsed :
    (name key : Str) (q : Option Quantity) (list : Option Dict)
    → get key (put_parsed name q list)
      ≡ (if name === key then or_else q (get key list) else get key list)
unfolding put_parsed or_else
get-put_parsed name key none list = ground arith
get-put_parsed name key (some q) list =
    ground (arith, lookup-insert name key q (or_new list), get-or_new key list)

-- The test that all four entries are empty.
abbrev asks_nothing : Dict → Bool
asks_nothing config =
    value_of (codes "cpuRequest") config === []
    && value_of (codes "cpuLimit") config === []
    && value_of (codes "memoryRequest") config === []
    && value_of (codes "memoryLimit") config === []

and_four :
    (a b c d : Bool) → (a && b && c && d) ≡ true → (a ≡ true) × (b ≡ true) × (c ≡ true) × (d ≡ true)
and_four a b c d h = ground arith

if-empty : (c m : Bool) (s t : Str) → s ≡ [] → t ≡ [] → (if c then s else if m then t else []) ≡ []
if-empty true m s t h k = h
if-empty false true s t h k = k
if-empty false false s t h k = refl

asks_nothing-empty :
    (config : Dict)
    → asks_nothing config ≡ true
    → (side : Side) (name : Str) → entry_of config side name ≡ []
asks_nothing-empty config h request name =
    let (cpu_request, cpu_limit, memory_request, memory_limit) = and_four _ _ _ _ h in
    if-empty (codes "cpu" === name) (codes "memory" === name) _ _ ((===_iff _ []).0 cpu_request)
      ((===_iff _ []).0 memory_request)
asks_nothing-empty config h limit name =
    let (cpu_request, cpu_limit, memory_request, memory_limit) = and_four _ _ _ _ h in
    if-empty (codes "cpu" === name) (codes "memory" === name) _ _ ((===_iff _ []).0 cpu_limit)
      ((===_iff _ []).0 memory_limit)

empty-asks_nothing :
    (config : Dict)
    → ((side : Side) (name : Str) → entry_of config side name ≡ [])
    → asks_nothing config ≡ true
empty-asks_nothing config h =
    rw
      (
        h request (codes "cpu"),
        h request (codes "memory"),
        h limit (codes "cpu"),
        h limit (codes "memory"),
      )
      refl

module _ (parse_quantity : Str → Option Quantity) where
  get-put_quantity :
      (name key text : Str) (list : Option Dict)
      → get key (put_quantity parse_quantity name text list) ≡ (
          if name === key
          then or_else (asked_by parse_quantity text) (get key list)
          else get key list)
  unfolding put_quantity or_else
  get-put_quantity name key [] list = ground arith
  get-put_quantity name key (c ∷ text) list =
      get-put_parsed name key (parse_quantity (c ∷ text)) list

  choose-or_else :
      (c m : Bool) (cpu memory : Str)
      → (c ≡ true → m ≡ false)
      → (let inner = if c then or_else (asked_by parse_quantity cpu) none else none in
          if m then or_else (asked_by parse_quantity memory) inner else inner)
        ≡ asked_by parse_quantity (if c then cpu else if m then memory else [])
  choose-or_else true true cpu memory h = absurd (cc (h refl))
  choose-or_else true false cpu memory h = or_else-none (asked_by parse_quantity cpu)
  choose-or_else false true cpu memory h = or_else-none (asked_by parse_quantity memory)
  choose-or_else false false cpu memory h = refl

  -- Behind the two blocks of a side.
  get-both :
      (key cpu memory : Str)
      → get key (
          put_quantity parse_quantity
            (codes "memory")
            memory
            (put_quantity parse_quantity (codes "cpu") cpu none))
        ≡ asked_by parse_quantity
            (if codes "cpu" === key then cpu else if codes "memory" === key then memory else [])
  get-both key cpu memory =
      get-put_quantity (codes "memory") key memory
        (put_quantity parse_quantity (codes "cpu") cpu none)
      ∙ (ap
            (λ (x : Option Quantity).
              if codes "memory" === key then or_else (asked_by parse_quantity memory) x else x)
            (get-put_quantity (codes "cpu") key cpu none)
          ∙ choose-or_else (codes "cpu" === key) (codes "memory" === key) cpu memory
              (cpu-not_memory key))

  both_sides :
      (config : Dict) (side : Side) (name : Str)
      → granted
          (some (record {
            requests =
                put_quantity parse_quantity
                  (codes "memory")
                  (value_of (codes "memoryRequest") config)
                  (put_quantity parse_quantity
                    (codes "cpu")
                    (value_of (codes "cpuRequest") config)
                    none);
            limits =
                put_quantity parse_quantity
                  (codes "memory")
                  (value_of (codes "memoryLimit") config)
                  (put_quantity parse_quantity
                    (codes "cpu")
                    (value_of (codes "cpuLimit") config)
                    none);
          }))
          side
          name
        ≡ asked_by parse_quantity (entry_of config side name)
  both_sides config request name = get-both name _ _
  both_sides config limit name = get-both name _ _

  -- For each side and each resource, the pod gets what the entry of the config map asks for, and nothing
  -- else: an entry that is empty or cannot be parsed gives nothing. The resources are nil exactly if
  -- all four entries are empty.
  pub parse_resource_requirements-grants :
      (config : Dict) (side : Side) (name : Str)
      → (granted (parse_resource_requirements parse_quantity config) side name
          ≡ asked_by parse_quantity (entry_of config side name))
        × ((parse_resource_requirements parse_quantity config ≡ none)
            ↔ ((r : Side) (n : Str) → entry_of config r n ≡ []))
  unfolding parse_resource_requirements
  parse_resource_requirements-grants config side name = elim (Bool-cases (asks_nothing config)) [
    | inl e ↦
        let empty = asks_nothing-empty config e in
        rw e (sym (ap (asked_by parse_quantity) (empty side name)), ((λ _. empty), (λ _. refl)))
    | inr e ↦ rw e (
      both_sides config side name,
      ((λ some_none. absurd (cc (some_none))), (λ h. absurd (cc (e, empty-asks_nothing config h)))),
    )
  ]
