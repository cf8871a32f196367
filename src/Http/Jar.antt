-- ===== src/Http/Jar.antt =====
-- src/api/cookie-jar.ts: the cookies of an exchange. The map is its entries in the order of their
-- first additions, as `Map` keeps them. A raw cookie is the text of one `Set-Cookie` header.
use homebridge_myalarmcom.Common.{
  ℕ, Bool, ◌&&◌, ◌||◌, Option, none, some, List, [], ◌∷◌, ◌++◌, map, text_eq, ◌==◌, leb,
  if◌then◌else◌,
}

-- The white space and line terminators that `trim` removes.
abbrev is_space : ℕ → Bool
is_space c =
    (leb 9 c && leb c 13)
    || (c == 32
        || (c == 160
            || (c == 5760
                || ((leb 8192 c && leb c 8202)
                    || (c == 8232
                        || (c == 8233
                            || (c == 8239 || (c == 8287 || (c == 12288 || c == 65279)))))))))

trim_start : List ℕ → List ℕ
trim_start [] = []
trim_start (c ∷ cs) = let rest = trim_start cs in if is_space c then rest else c ∷ cs

-- `trimEnd`: a space goes where nothing that is left follows it.
abbrev after_trimmed : ℕ → List ℕ → List ℕ
after_trimmed c [] = if is_space c then [] else c ∷ []
after_trimmed c (d ∷ ds) = c ∷ d ∷ ds

trim_end : List ℕ → List ℕ
trim_end [] = []
trim_end (c ∷ cs) = after_trimmed c (trim_end cs)

pub trim : List ℕ → List ℕ
unfolding trim_start trim_end
trim cs = trim_end (trim_start cs)

-- The text before the first such character, or all of it: `split(c)[0]`.
pub before : ℕ → List ℕ → List ℕ
before c [] = []
before c (d ∷ ds) = let rest = before c ds in if d == c then [] else d ∷ rest

abbrev behind : ℕ → Option (List ℕ × List ℕ) → Option (List ℕ × List ℕ)
behind d none = none
behind d (some (left, right)) = some (d ∷ left, right)

-- The two sides of the first such character: `indexOf` and the slices.
pub cut : ℕ → List ℕ → Option (List ℕ × List ℕ)
cut c [] = none
cut c (d ∷ ds) = let rest = cut c ds in if d == c then some ([], ds) else behind d rest

-- `deleted`
abbrev deleted_text : List ℕ
deleted_text = 100 ∷ 101 ∷ 108 ∷ 101 ∷ 116 ∷ 101 ∷ 100 ∷ []

-- What a raw cookie asks for: a value for a name, or, with `none`, that the name be deleted.
abbrev as_change : Option (List ℕ × List ℕ) → Option (List ℕ × Option (List ℕ))
as_change none = none
as_change (some (left, right)) =
    let value = trim right in
    some (trim left, if text_eq value [] || text_eq value deleted_text then none else some value)

unfoldable pub change_of : List ℕ → Option (List ℕ × Option (List ℕ))
unfolding before cut trim
change_of raw = as_change (cut 61 (before 59 raw))

pub record CookieJar : Type 0 where
  pub cookies : List (List ℕ × List ℕ)

unfoldable pub lookup : List (List ℕ × List ℕ) → List ℕ → Option (List ℕ)
lookup [] name = none
lookup ((held, value) ∷ rest) name = if text_eq held name then some value else lookup rest name

unfoldable pub set : List (List ℕ × List ℕ) → List ℕ → List ℕ → List (List ℕ × List ℕ)
set [] name value = (name, value) ∷ []
set ((held, old) ∷ rest) name value =
    let others = set rest name value in
    if text_eq held name then (held, value) ∷ rest else (held, old) ∷ others

unfoldable pub delete : List (List ℕ × List ℕ) → List ℕ → List (List ℕ × List ℕ)
delete [] name = []
delete ((held, old) ∷ rest) name =
    let others = delete rest name in if text_eq held name then others else (held, old) ∷ others

unfoldable pub apply_change : CookieJar → Option (List ℕ × Option (List ℕ)) → CookieJar
unfolding set delete
apply_change jar none = jar
apply_change jar (some (name, none)) = record { cookies = delete jar.cookies name }
apply_change jar (some (name, some value)) = record { cookies = set jar.cookies name value }

unfoldable pub absorb : CookieJar → List (List ℕ) → CookieJar
unfolding apply_change change_of
absorb jar [] = jar
absorb jar (raw ∷ raws) = absorb (apply_change jar (change_of raw)) raws

unfoldable pub get : CookieJar → List ℕ → Option (List ℕ)
unfolding lookup
get jar name = lookup jar.cookies name

abbrev pub names : CookieJar → List (List ℕ)
names jar = map (λ cookie. let (name, value) = cookie in name) jar.cookies

abbrev join : List (List ℕ) → List ℕ
join [] = []
join (x ∷ []) = x
join (x ∷ y ∷ xs) = x ++ (59 ∷ 32 ∷ join (y ∷ xs))

-- `toHeader`
unfoldable pub to_header : CookieJar → List ℕ
to_header jar =
    join (map (λ cookie. let (name, value) = cookie in name ++ (61 ∷ value)) jar.cookies)
