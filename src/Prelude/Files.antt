-- ===== src/Prelude/Files.antt =====
-- How a file of pkg/cost and pkg/federation is written: it cannot be opened, all of a text gets into it, or the write is cut off by an
-- error, and only a part of the text does.
use mathlib.Core.Path.{◌≡◌, refl}
use mathlib.Core.Logic.{◌⊎◌, inl, inr}

pub data Write (T : Type 0) : Type 0 where
  unopened whole : Write T
  cut_off : T → Write T

pub Write-cases :
    {T : Type 0} (w : Write T) → (w ≡ unopened) ⊎ ((w ≡ whole) ⊎ ((part : T) × (w ≡ cut_off part)))
Write-cases unopened = inl refl
Write-cases whole = inr (inl refl)
Write-cases (cut_off part) = inr (inr (part, refl))
