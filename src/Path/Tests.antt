-- ===== src/Path/Tests.antt =====
-- Runs of `hlp__pathcopy` of src/helper.c.
use fsvs.Prelude.{◌≡◌, refl, some, List, Bytes, arith, [], ◌∷◌, codes, strcmp_eq, strncmp_eq}
use fsvs.Path.{pathcopy, joined, is_absolute}
use fsvs.Path.Normal.{pathcopy-normal}
use fsvs.Path.Copy.{path_of, rendered, normal}

relative_run :
    pathcopy (codes "/home/") (codes "a//..//.///b/" ∷ codes "c" ∷ []) ≡ some (codes "/home/b/c")
unfolding pathcopy strcmp_eq strncmp_eq
relative_run = refl

absolute_run :
    pathcopy (codes "/home") (codes "/a/./b/../" ∷ codes "../c/." ∷ []) ≡ some (codes "/c")
unfolding pathcopy strcmp_eq strncmp_eq
absolute_run = refl

-- The root is written as nothing where the path ends in "..", and as "/" where it ends in ".".
root_run : pathcopy (codes "/home") (codes "/a/.." ∷ []) ≡ some []
unfolding pathcopy strcmp_eq strncmp_eq
root_run = refl

abbrev home : List Bytes
home = codes "b" ∷ codes "a" ∷ []

pathcopy-normal_example :
    pathcopy (codes "/a/b") (codes "c/.//" ∷ codes "../d" ∷ [])
    ≡ some
        (rendered (normal home (codes "c" ∷ codes "." ∷ codes "" ∷ codes ".." ∷ codes "d" ∷ [])) [])
unfolding is_absolute joined
pathcopy-normal_example =
    pathcopy-normal (codes "/a/b") (codes "c/.//" ∷ codes "../d" ∷ []) home (codes "c")
      (codes "." ∷ codes "" ∷ codes ".." ∷ codes "d" ∷ []) (unfold rendered in refl)
      (((refl, omega arith), ((refl, omega arith), tt))) (refl, (refl, (refl, (refl, (refl, tt)))))
      refl (unfold joined path_of in refl)
