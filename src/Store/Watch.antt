-- ===== src/Store/Watch.antt =====
-- internal/store/watch.go: the write stream. Observers act on a world `W` of their own, which the
-- store hands them in registration order. Registration and emission are each one step: the list is
-- swapped atomically.
use cinc_server_ng.Prelude.{◌≡◌, refl, Bool, Option, List, [], ◌∷◌, ◌++◌, Bytes}

-- `value` is the bytes written, or `none` for nil.
pub record Event : Type 0 where
  pub org : Bytes
  pub collection : Bytes
  pub key : Bytes
  pub value : Option Bytes
  pub deleted : Bool

abbrev pub Watchers : Type 0 → Type 0
Watchers W = List (Event → W → W)

module _ {W : Type 0} where
  -- watchers.add
  unfoldable pub add_watcher : Watchers W → (Event → W → W) → Watchers W
  add_watcher fns fn = fns ++ fn ∷ []

  -- watchers.emit
  unfoldable pub emit_direct : Watchers W → Event → W → W
  emit_direct [] ev w = w
  emit_direct (fn ∷ fns) ev w = emit_direct fns ev (fn ev w)

  -- the loop of flushTo, on the observers
  unfoldable pub deliver : Watchers W → List Event → W → W
  deliver fns [] w = w
  deliver fns (ev ∷ evs) w = deliver fns evs (emit_direct fns ev w)

  pub deliver-append :
      (fns : Watchers W) (xs ys : List Event) (w : W)
      → deliver fns (xs ++ ys) w ≡ deliver fns ys (deliver fns xs w)
  unfolding deliver
  deliver-append fns [] ys w = refl
  deliver-append fns (x ∷ xs) ys w = deliver-append fns xs ys (emit_direct fns x w)
