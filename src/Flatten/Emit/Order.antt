-- ===== src/Flatten/Emit/Order.antt =====
-- The comparisons of the two sorts of parameters in engine/src/model/flattener.cpp.
use onebeat.Prelude.{◌≡◌, refl, sym, ◌∙◌, true, false, arith}
use onebeat.Prelude.Sorting.{StrictWeak}
use onebeat.Flatten.Resolve.{ResolvedParam, ResolvedEffectParam}
use onebeat.Flatten.Emit.{param_before, effect_param_before}

param_asymm : (a b : ResolvedParam) → param_before a b ≡ true → param_before b a ≡ false
unfolding param_before
param_asymm a b h = ground arith

param_le_trans :
    (a b c : ResolvedParam)
    → param_before b a ≡ false
    → param_before c b ≡ false
    → param_before c a ≡ false
unfolding param_before
param_le_trans a b c h k = ground arith

pub param_order : StrictWeak param_before
param_order = record { asymm = param_asymm; le_trans = param_le_trans }

-- The comparison of effect parameters is that of parameters, with the insert for the instrument.
abbrev as_param : ResolvedEffectParam → ResolvedParam
as_param q = record {
  position = q.position;
  instrument = q.effect;
  parameter = q.parameter;
  value = q.value;
}

as_param-before :
    (a b : ResolvedEffectParam) → effect_param_before a b ≡ param_before (as_param a) (as_param b)
unfolding effect_param_before param_before
as_param-before a b = refl

pub effect_param_order : StrictWeak effect_param_before
effect_param_order = record {
  asymm = λ a b h.
      as_param-before b a ∙ param_asymm (as_param a) (as_param b) (sym (as_param-before a b) ∙ h);
  le_trans = λ a b c h k.
      as_param-before c a
      ∙ param_le_trans (as_param a) (as_param b) (as_param c) (sym (as_param-before b a) ∙ h)
          (sym (as_param-before c b) ∙ k);
}
