-- ===== src/Signal/Coins.antt =====
-- Coin symbols: the look-up by exact, case-folded and normalised symbol in
-- backend/app/services/copy_signal_service.py. A symbol is its list of code points, and the text
-- operations are those of `str` on ASCII.
use Prim.Native.Char.{code}
use copytrading_agent.Prelude.{
  ℕ, ◌+◌, ◌-◌, String, Bool, true, false, ◌&&◌, ◌||◌, Option, none, some, List, [], ◌∷◌, ◌++◌, leb,
  map, if◌then◌else◌, ◌==◌,
}
use copytrading_agent.Decimal.{Decimal}
use copytrading_agent.Trade.{MarginMode, cross, isolated, safe_leverage}

abbrev pub Symbol : Type 0
Symbol = List ℕ

abbrev pub codes : String → Symbol
codes String.[] = []
codes (String.◌∷◌ c s) = code c ∷ codes s

abbrev pub symbol_eq : Symbol → Symbol → Bool
symbol_eq [] [] = true
symbol_eq (a ∷ as') (b ∷ bs) = a == b && symbol_eq as' bs
symbol_eq _ _ = false

abbrev is_space : ℕ → Bool
is_space c = c == 32 || leb 9 c && leb c 13 || leb 28 c && leb c 31

abbrev is_upper : ℕ → Bool
is_upper c = leb b'A' c && leb c b'Z'

abbrev is_lower : ℕ → Bool
is_lower c = leb b'a' c && leb c b'z'

abbrev is_alnum : ℕ → Bool
is_alnum c = is_upper c || is_lower c || leb b'0' c && leb c b'9'

abbrev pub upper : Symbol → Symbol
upper = map (λ c. if is_lower c then c - 32 else c)

-- `str.lower` and `str.casefold` agree on ASCII.
abbrev pub lower : Symbol → Symbol
lower = map (λ c. if is_upper c then c + 32 else c)

lstrip : Symbol → Symbol
lstrip [] = []
lstrip (c ∷ cs) = let rest = lstrip cs in if is_space c then rest else c ∷ cs

rstrip : Symbol → Symbol
rstrip [] = []
rstrip (c ∷ cs) = elim (rstrip cs) [ [] ↦ if is_space c then [] else c ∷ [] | x ∷ xs ↦ c ∷ x ∷ xs ]

unfoldable pub strip : Symbol → Symbol
unfolding lstrip rstrip
strip s = rstrip (lstrip s)

contains : ℕ → Symbol → Bool
contains k [] = false
contains k (c ∷ cs) = c == k || contains k cs

-- `value.rsplit(k, maxsplit=1)[-1]`
after_last : ℕ → Symbol → Symbol
unfolding contains
after_last k [] = []
after_last k (c ∷ cs) =
    let rest = after_last k cs in if contains k cs then rest else if c == k then cs else c ∷ cs

-- `value.split(k, maxsplit=1)[0]`
before_first : ℕ → Symbol → Symbol
before_first k [] = []
before_first k (c ∷ cs) = let rest = before_first k cs in if c == k then [] else c ∷ rest

abbrev pub is_member : Symbol → List Symbol → Bool
is_member s [] = false
is_member s (x ∷ xs) = symbol_eq x s || is_member s xs

-- `seen` holds the values met so far.
unique_from : List Symbol → List Symbol → List Symbol
unique_from seen [] = []
unique_from seen (v ∷ vs) =
    let known = unique_from seen vs in
    let fresh = unique_from (v ∷ seen) vs in if is_member v seen then known else v ∷ fresh

unfoldable pub unique_strings : List Symbol → List Symbol
unfolding unique_from
unique_strings values = unique_from [] values

expand : List Symbol → List Symbol
expand [] = []
expand ([] ∷ rest) = expand rest
expand ((c ∷ cs) ∷ rest) = (c ∷ cs) ∷ upper (c ∷ cs) ∷ lower (c ∷ cs) ∷ expand rest

unfoldable pub coin_symbol_candidates : Symbol → List Symbol
unfolding strip contains after_last before_first expand unique_strings
coin_symbol_candidates coin = elim (strip coin) [
  | [] ↦ []
  | c ∷ cs ↦
      let value : Symbol = c ∷ cs in
      let after : List Symbol = if contains b':' value then after_last b':' value ∷ [] else [] in
      let before : List Symbol = if contains b'/' value then before_first b'/' value ∷ [] else [] in
      unique_strings (expand ((value ∷ after) ++ before))
]

keep_alnum : Symbol → Symbol
keep_alnum [] = []
keep_alnum (c ∷ cs) = let rest = keep_alnum cs in if is_alnum c then c ∷ rest else rest

unfoldable pub normalize_coin_symbol : Symbol → Symbol
unfolding keep_alnum
normalize_coin_symbol value = keep_alnum (lower value)

-- The part of a coin before its colon, stripped: the name of its perp dex.
unfoldable pub dex_from_coin : Symbol → Symbol
unfolding strip contains before_first
dex_from_coin value =
    let coin = strip value in if contains b':' coin then strip (before_first b':' coin) else []

-- A dictionary whose keys are symbols, in order of insertion, and no key twice.
abbrev pub ByCoin : Type 0 → Type 0
ByCoin A = List (Symbol × A)

normalized_candidates : List Symbol → List Symbol
unfolding normalize_coin_symbol
normalized_candidates [] = []
normalized_candidates (c ∷ cs) = elim (normalize_coin_symbol c) [
  | [] ↦ normalized_candidates cs
  | x ∷ xs ↦ (x ∷ xs) ∷ normalized_candidates cs
]

module _ {A : Type 0} where
  unfoldable pub get : Symbol → ByCoin A → Option A
  get key [] = none
  get key ((k, a) ∷ rest) = if symbol_eq k key then some a else get key rest

  -- `get` in `{key.casefold(): value for key, value in d.items() if key.strip()}`, where of two keys
  -- that fold alike the later one is kept.
  get_folded : Symbol → ByCoin A → Option A
  unfolding strip
  get_folded key [] = none
  get_folded key ((k, a) ∷ rest) = elim (get_folded key rest) [
    | some later ↦ some later
    | none ↦ elim (strip k) [ [] ↦ none | _ ∷ _ ↦ if symbol_eq (lower k) key then some a else none ]
  ]

module _ {A B : Type 0} (read : A → Option B) where
  read_found : Option A → Option B
  read_found none = none
  read_found (some a) = read a

  -- The value of the first candidate that `find` knows and that can be read.
  first_found : (Symbol → Option A) → List Symbol → Option B
  unfolding read_found
  first_found find [] = none
  first_found find (c ∷ cs) =
      let later = first_found find cs in
      elim (read_found (find c)) [ some b ↦ some b | none ↦ later ]

  first_normalized : List Symbol → ByCoin A → Option B
  unfolding normalize_coin_symbol
  first_normalized wanted [] = none
  first_normalized wanted ((k, a) ∷ rest) =
      let later = first_normalized wanted rest in
      if is_member (normalize_coin_symbol k) wanted
      then elim (read a) [ some b ↦ some b | none ↦ later ]
      else later

  -- The three look-ups by coin have this body: the first stage that finds something decides.
  unfoldable pub resolve_coin : ByCoin A → Symbol → Option B
  unfolding coin_symbol_candidates get get_folded first_found normalized_candidates first_normalized
  resolve_coin values coin =
      let candidates = coin_symbol_candidates coin in
      elim (first_found (λ c. get c values) candidates) [
        | some found ↦ some found
        | none ↦ elim (first_found (λ c. get_folded (lower c) values) candidates) [
          | some found ↦ some found
          | none ↦ first_normalized (normalized_candidates candidates) values
        ]
      ]

unfoldable pub normalize_margin_mode : Symbol → Option MarginMode
unfolding strip
normalize_margin_mode value =
    let normalized = lower (strip value) in
    if symbol_eq normalized (codes "cross")
    then some cross
    else if symbol_eq normalized (codes "isolated")
    then some isolated
    else none

unfoldable pub resolve_coin_margin_mode : ByCoin Symbol → Symbol → Option MarginMode
unfolding resolve_coin normalize_margin_mode
resolve_coin_margin_mode = resolve_coin normalize_margin_mode

module _ {D : Type 0} ⦃d : Decimal D⦄ where
  unfoldable pub resolve_coin_decimal : ByCoin String → Symbol → Option D
  unfolding resolve_coin
  resolve_coin_decimal = resolve_coin d.parse

  -- `leverage_for_fill`, for leverages that are decimals already.
  unfoldable pub leverage_for_fill : Symbol → ByCoin D → D
  unfolding resolve_coin safe_leverage
  leverage_for_fill coin source_leverages = safe_leverage (resolve_coin some source_leverages coin)
