-- ===== src/Keyboard/Values.antt =====
-- libswc/keyboard.c: lemmas on the array of keys and the values of the client's.
use neoswc.Prelude.{
  ℕ, ◌≡◌, refl, Bool, true, false, ◌&&◌, Option, none, some, List, [], ◌∷◌, ◌++◌, arith, ◌==◌,
  if◌then◌else◌,
}
use neoswc.Keyboard.{Handler, Key, client_handler}
use neoswc.Keyboard.Handlers.{remove_value}
use neoswc.Keyboard.Keys.{find_key, remove_key}

-- The values of the keys that the client's handler took
abbrev pub of_client : Option Handler → Bool
of_client (some client_handler) = true
of_client _ = false

abbrev pub client_values : List Key → List ℕ
client_values [] = []
client_values (k ∷ ks) =
    if of_client k.handler then k.value ∷ client_values ks else client_values ks

abbrev pub distinct_values : List Key → Bool
distinct_values [] = true
distinct_values (k ∷ ks) =
    (elim (find_key k.value ks) [ none ↦ true | some _ ↦ false ]) && distinct_values ks

pub client_values-append :
    (ks : List Key) (k : Key)
    → client_values (ks ++ (k ∷ []))
      ≡ client_values ks ++ (if of_client k.handler then k.value ∷ [] else [])
client_values-append [] k = ground arith
client_values-append (k' ∷ ks) k = ground (arith, client_values-append ks k)

pub client_values-remove :
    (v : ℕ) (ks : List Key) (k : Key)
    → find_key v ks ≡ some k
    → client_values (remove_key v ks)
      ≡ (if of_client k.handler then remove_value v (client_values ks) else client_values ks)
unfolding find_key remove_key remove_value
client_values-remove v [] k e = ground (arith, e)
client_values-remove v (k' ∷ ks) k e = ground (arith, client_values-remove v ks k, e)

find_key-append :
    (v : ℕ) (ks : List Key) (k : Key)
    → find_key v ks ≡ none
    → find_key v (ks ++ (k ∷ [])) ≡ (if k.value == v then some k else none)
unfolding find_key
find_key-append v [] k e = refl
find_key-append v (k' ∷ ks) k e = ground (arith, find_key-append v ks k, e)

find_key-append_ne :
    (v : ℕ) (ks : List Key) (k : Key)
    → (k.value == v) ≡ false
    → find_key v (ks ++ (k ∷ [])) ≡ find_key v ks
unfolding find_key
find_key-append_ne v [] k e = ground (arith, e)
find_key-append_ne v (k' ∷ ks) k e = ground (arith, find_key-append_ne v ks k, e)

pub distinct_values-append :
    (ks : List Key) (k : Key)
    → distinct_values ks ≡ true
    → find_key k.value ks ≡ none
    → distinct_values (ks ++ (k ∷ [])) ≡ true
unfolding find_key
distinct_values-append [] k d e = ground arith
distinct_values-append (k' ∷ ks) k d e =
    ground (arith, distinct_values-append ks k, find_key-append_ne k'.value ks k, d, e)

find_key-remove :
    (v w : ℕ) (ks : List Key) → find_key v ks ≡ none → find_key v (remove_key w ks) ≡ none
unfolding find_key remove_key
find_key-remove v w [] e = refl
find_key-remove v w (k ∷ ks) e = ground (arith, find_key-remove v w ks, e)

pub distinct_values-remove :
    (v : ℕ) (ks : List Key) → distinct_values ks ≡ true → distinct_values (remove_key v ks) ≡ true
unfolding remove_key
distinct_values-remove v [] d = refl
distinct_values-remove v (k ∷ ks) d =
    ground (arith, distinct_values-remove v ks, find_key-remove k.value v ks, d)

pub found_value : (v : ℕ) (ks : List Key) (k : Key) → find_key v ks ≡ some k → k.value ≡ v
unfolding find_key
found_value v [] k e = ground (arith, e)
found_value v (k' ∷ ks) k e = ground (arith, found_value v ks k, e)

pub client_values-head :
    (key : Key) (ks : List Key) (held : List ℕ)
    → held ≡ client_values (key ∷ ks)
    → (if of_client key.handler then remove_value key.value held else held) ≡ client_values ks
unfolding remove_value
client_values-head key ks held e = ground (arith, e)
