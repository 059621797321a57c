-- ===== src/Strings/Tests.antt =====
-- Short strings, and the theorems applied to them.
use plan9_ocaml.Prelude.{[], some, List, arith, take, ◌∷◌, ◌≡◌, ◌++◌, ℕ, replicate, refl, drop}
use plan9_ocaml.Strings.{strncpy, strncmp, memccpy, above, toupper}
use plan9_ocaml.Strings.Search.{IsAbsent}
use plan9_ocaml.Strings.Copy.{strncpy-eq}

-- "boot"
abbrev boot : List ℕ
boot = 98 ∷ 111 ∷ 111 ∷ 116 ∷ []

boot_string : IsAbsent 0 boot
unfolding IsAbsent
boot_string = (omega arith, (omega arith, (omega arith, (omega arith, tt))))

above_boot : strncmp (98 ∷ 111 ∷ 0 ∷ []) (98 ∷ 0 ∷ 7 ∷ []) 3 ≡ some above
unfolding strncmp
above_boot = refl

copied_boot : memccpy (1 ∷ 2 ∷ 3 ∷ []) boot 111 3 ≡ some (some 2, 98 ∷ 111 ∷ 3 ∷ [])
unfolding memccpy
copied_boot = refl

upper_o : toupper 111 ≡ 79
unfolding toupper
upper_o = refl

strncpy-eq_example :
    strncpy (1 ∷ 1 ∷ 1 ∷ 1 ∷ 1 ∷ 1 ∷ 1 ∷ []) (boot ++ 0 ∷ []) 6
    ≡ some (take 6 (boot ++ replicate 6 0) ++ drop 6 (1 ∷ 1 ∷ 1 ∷ 1 ∷ 1 ∷ 1 ∷ 1 ∷ []))
strncpy-eq_example = strncpy-eq (1 ∷ 1 ∷ 1 ∷ 1 ∷ 1 ∷ 1 ∷ 1 ∷ []) boot [] 6 (omega arith) boot_string
