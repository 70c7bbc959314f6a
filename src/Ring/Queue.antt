-- ===== src/Ring/Queue.antt =====
-- What the ring promises: a queue of bytes of bounded size, where a call that cannot go on waits.
use hermes_broadcast.Common.{
  ◌<◌, ◌≡◌, refl, ℕ, ◌+◌, ◌≤◌, List, [], ◌∷◌, ◌++◌, leb, ltb, if◌then◌else◌, length, take, drop,
}
use hermes_broadcast.Ring
use hermes_broadcast.Ring.{
  Ring, Attempt, waits, done, fault, read_buffer, read_buffer_all, write_buffer,
}
use hermes_broadcast.Ring.Window.{contents}

pub data Outcome {ℓ} (A : Type ℓ) : Type ℓ where
  waiting : Outcome A
  ok : List ℕ → A → Outcome A
  broken : Outcome A

-- An attempt on a ring, seen through the bytes that the ring holds.
abbrev pub view {ℓ} : {A : Type ℓ} → Attempt A → Outcome A
view waits = waiting
view (done r a) = ok (contents r) a
view fault = broken

unfoldable pub read : ℕ → List ℕ → Outcome (List ℕ)
read len q = if leb len (length q) then ok (drop len q) (take len q) else waiting

unfoldable pub read_all : List ℕ → Outcome (List ℕ)
read_all q = if ltb 0 (length q) then ok [] q else waiting

unfoldable pub write : ℕ → List ℕ → ℕ → List ℕ → Outcome (Unit {0})
write cap bs len q = if leb (length q + len) cap then ok (q ++ take len bs) tt else waiting

unfoldable pub put : ℕ → ℕ → List ℕ → Outcome (Unit {0})
put cap b q = if ltb (length q) cap then ok (q ++ b ∷ []) tt else waiting

unfoldable pub get : List ℕ → Outcome ℕ
get [] = waiting
get (b ∷ q) = ok q b

-- A call of the ring with its arguments.
pub data Call : Type 0 where
  read_call : ℕ → Call
  read_all_call : Call
  write_call : List ℕ → ℕ → Call
  put_call : ℕ → Call
  get_call : Call

-- What the callers see to: lengths are positive, and a write has its bytes.
abbrev pub IsCall : Call → Type 0
IsCall (read_call len) = 0 < len
IsCall (write_call bs len) = (0 < len) × (len ≤ length bs)
IsCall _ = Unit

abbrev pub map_attempt {ℓ κ} : {A : Type ℓ} {B : Type κ} → (A → B) → Attempt A → Attempt B
map_attempt f waits = waits
map_attempt f (done r a) = done r (f a)
map_attempt f fault = fault

abbrev pub map_outcome {ℓ κ} : {A : Type ℓ} {B : Type κ} → (A → B) → Outcome A → Outcome B
map_outcome f waiting = waiting
map_outcome f (ok q a) = ok q (f a)
map_outcome f broken = broken

-- Every call with the bytes that it hands out.
abbrev pub attempt : Ring → Call → Attempt (List ℕ)
attempt r (read_call len) = read_buffer r len
attempt r read_all_call = read_buffer_all r
attempt r (write_call bs len) = map_attempt (λ u. []) (write_buffer r bs len)
attempt r (put_call b) = map_attempt (λ u. []) (Ring.put r b)
attempt r get_call = map_attempt (λ b. b ∷ []) (Ring.get r)

abbrev pub serve : ℕ → Call → List ℕ → Outcome (List ℕ)
serve cap (read_call len) q = read len q
serve cap read_all_call q = read_all q
serve cap (write_call bs len) q = map_outcome (λ u. []) (write cap bs len q)
serve cap (put_call b) q = map_outcome (λ u. []) (put cap b q)
serve cap get_call q = map_outcome (λ b. b ∷ []) (get q)

pub view-map_attempt {ℓ κ} :
    {A : Type ℓ} {B : Type κ} (f : A → B) (a : Attempt A)
    → view (map_attempt f a) ≡ map_outcome f (view a)
view-map_attempt f waits = refl
view-map_attempt f (done r a) = refl
view-map_attempt f fault = refl
