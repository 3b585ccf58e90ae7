-- ===== src/Skip/Tests.antt =====
-- The two versions of `NthElement` at concrete counts.
use structor.Common.{◌≡◌, refl, arith, pos, negsuc}
use structor.Skip.{nth_element_64, nth_element}
use structor.Skip.Steps.{iterate}
use structor.Skip.Exact.{nth_element_64-iterate}
use structor.Skip.Words.{nth_element-iterate}

-- Park and Miller's check value, by both versions.
check_value : (nth_element_64 (pos 10000) 1 ≡ 1043618065) × (nth_element (pos 10000) 1 ≡ 1043618065)
unfolding nth_element_64 nth_element
check_value = (refl, refl)

back_and_forth : nth_element (pos 3) (nth_element (negsuc 2) 46831694) ≡ 46831694
unfolding nth_element
back_and_forth = refl

nth_element_64-iterate_example : nth_element_64 (pos 92) 709314158 ≡ iterate 92 709314158
nth_element_64-iterate_example = nth_element_64-iterate 92 709314158 (omega arith)

nth_element-iterate_example : nth_element (pos 92) 709314158 ≡ iterate 92 709314158
nth_element-iterate_example =
    nth_element-iterate 92 709314158 (omega arith) (omega arith) (omega arith)
