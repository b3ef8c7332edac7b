-- ===== src/Ebpf/Attach/Counts.antt =====
-- What attachTracepoints of internal/ebpf/attach_linux.go counts.
use ltm.Prelude.{
  ◌+◌, Bool, true, false, not, ◌&&◌, List, [], ◌∷◌, ◌++◌, Text, Option, none, some, length,
  length-append, Bool-cases, inl, inr, if◌then◌else◌, Result, ok, err, ◌≡◌, refl, arith, any, ◌∙◌,
  append_assoc, append-nil, sym,
}
use mathlib.Core.Path.{subst}
use ltm.Ebpf.Attach.{Attached, TracepointSpec, add_link, attach_from, attach_tracepoints, skip}

module _ {Link : Type 0} (programs : Text → Bool) (tracepoint : TracepointSpec → Option Link) where
  -- The links of the tracepoints whose program is there and that the kernel attaches, in order.
  abbrev pub link_of : Option Link → List Link
  link_of none = []
  link_of (some l) = l ∷ []

  abbrev pub links_of : List TracepointSpec → List Link
  links_of [] = []
  links_of (tp ∷ tps) =
      (if programs tp.program then link_of (tracepoint tp) else []) ++ links_of tps

  -- A program that must be there and is not.
  abbrev pub is_missing : TracepointSpec → Bool
  is_missing tp = not (programs tp.program) && not tp.optional

  -- What the loop gives: the links so far and the further ones, as many as are counted, and each
  -- tracepoint counted once; or an error, where a program is missing.
  abbrev Counted : Attached Link → List TracepointSpec → Result Text (Attached Link) → Type 0
  Counted a tps (ok r) =
      (any is_missing tps ≡ false)
      × (r.links ≡ a.links ++ links_of tps)
      × (r.attached + length a.links ≡ a.attached + length r.links)
      × (r.attached + r.skipped ≡ a.attached + a.skipped + length tps)
  Counted a tps (err p) = any is_missing tps ≡ true

  present-Counted :
      (a : Attached Link) (tp : TracepointSpec) (tps : List TracepointSpec) (l : Option Link)
      (r : Result Text (Attached Link))
      → programs tp.program ≡ true
      → tracepoint tp ≡ l
      → Counted (add_link programs tracepoint a l) tps r
      → Counted a (tp ∷ tps) r
  present-Counted a tp tps l (err p) here e h = rw here h
  present-Counted a tp tps none (ok r) here e h = rw (here, e) (h.0, h.1, h.2, omega (arith, h.3))
  present-Counted a tp tps (some l) (ok r) here e h =
      rw (here, e)
        (
          h.0,
          h.1 ∙ append_assoc a.links (l ∷ []) (links_of tps),
          omega (arith, h.2, length-append a.links (l ∷ [])),
          omega (arith, h.3),
        )

  absent-Counted :
      (a : Attached Link) (tp : TracepointSpec) (tps : List TracepointSpec)
      (r : Result Text (Attached Link))
      → programs tp.program ≡ false
      → tp.optional ≡ true
      → Counted (skip programs tracepoint a) tps r
      → Counted a (tp ∷ tps) r
  absent-Counted a tp tps (err p) gone e h = rw (gone, e) h
  absent-Counted a tp tps (ok r) gone e h = rw (gone, e) (h.0, h.1, h.2, omega (arith, h.3))

  without-Counted :
      (a : Attached Link) (tp : TracepointSpec) (tps : List TracepointSpec)
      → programs tp.program ≡ false
      → Counted
          (skip programs tracepoint a)
          tps
          (attach_from programs tracepoint (skip programs tracepoint a) tps)
      → Counted a (tp ∷ tps) (
          if tp.optional
          then attach_from programs tracepoint (skip programs tracepoint a) tps
          else err tp.program)
  without-Counted a tp tps gone h = elim (Bool-cases tp.optional) [
    | inl e ↦
        subst
          (λ b. Counted a (tp ∷ tps) (
            if b
            then attach_from programs tracepoint (skip programs tracepoint a) tps
            else err tp.program))
          (sym e)
          (absent-Counted a tp tps
            (attach_from programs tracepoint (skip programs tracepoint a) tps) gone e h)
    | inr e ↦
        subst
          (λ b. Counted a (tp ∷ tps) (
            if b
            then attach_from programs tracepoint (skip programs tracepoint a) tps
            else err tp.program))
          (sym e) (ground (arith, gone, e))
  ]

  attach_from-none : (a : Attached Link) → Counted a [] (attach_from programs tracepoint a [])
  unfolding attach_from
  attach_from-none a = (refl, sym (append-nil a.links), omega arith, omega arith)

  attach_from-present :
      (a : Attached Link) (tp : TracepointSpec) (tps : List TracepointSpec)
      → programs tp.program ≡ true
      → attach_from programs tracepoint a (tp ∷ tps)
        ≡ attach_from programs tracepoint (add_link programs tracepoint a (tracepoint tp)) tps
  unfolding attach_from
  attach_from-present a tp tps h = rw h refl

  attach_from-absent :
      (a : Attached Link) (tp : TracepointSpec) (tps : List TracepointSpec)
      → programs tp.program ≡ false
      → attach_from programs tracepoint a (tp ∷ tps) ≡ (
          if tp.optional
          then attach_from programs tracepoint (skip programs tracepoint a) tps
          else err tp.program)
  unfolding attach_from
  attach_from-absent a tp tps h = rw h refl

  attach_from-Counted :
      (a : Attached Link) (tps : List TracepointSpec)
      → Counted a tps (attach_from programs tracepoint a tps)
  attach_from-Counted a [] = attach_from-none a
  attach_from-Counted a (tp ∷ tps) = elim (Bool-cases (programs tp.program)) [
    | inl here ↦ subst (Counted a (tp ∷ tps)) (sym (attach_from-present a tp tps here)) (
        present-Counted a tp tps (tracepoint tp) _ here refl
          (attach_from-Counted (add_link programs tracepoint a (tracepoint tp)) tps))
    | inr gone ↦
        subst (Counted a (tp ∷ tps)) (sym (attach_from-absent a tp tps gone))
          (without-Counted a tp tps gone (attach_from-Counted (skip programs tracepoint a) tps))
  ]

  -- The attachment fails exactly when a program that is not optional is missing. Otherwise it gives the
  -- links of the tracepoints that the kernel attached, in the table's order, as many as it counts, and
  -- counts each other tracepoint of the table as skipped.
  abbrev pub AllAttached : List TracepointSpec → Result Text (Attached Link) → Type 0
  AllAttached tps (ok r) =
      (any is_missing tps ≡ false)
      × (r.links ≡ links_of tps)
      × (r.attached ≡ length r.links)
      × (r.attached + r.skipped ≡ length tps)
  AllAttached tps (err p) = any is_missing tps ≡ true

  from_nothing :
      (tps : List TracepointSpec) (r : Result Text (Attached Link))
      → Counted (record { links = []; attached = 0; skipped = 0 }) tps r
      → AllAttached tps r
  from_nothing tps (ok r) h = (h.0, h.1, omega (arith, h.2), omega (arith, h.3))
  from_nothing tps (err p) h = h

  pub attach_tracepoints-AllAttached :
      (tps : List TracepointSpec) → AllAttached tps (attach_tracepoints programs tracepoint tps)
  unfolding attach_tracepoints
  attach_tracepoints-AllAttached tps = from_nothing tps _ (attach_from-Counted _ tps)
