-- ===== src/Robots/Escapes/Tests.antt =====
-- Runs and witnesses of the normalisation of paths.
use webprobe.Base.{◌≡◌, refl, true, none, some, arith}
use webprobe.Base.Text.{codes}
use webprobe.Robots.Escapes.{
  normalize_percent_escapes, normalize_from, step, escaped, unescaped, code_point, percent,
}
use webprobe.Robots.Escapes.Normal.{normalize_percent_escapes-normal}

-- `%7e` is a tilde, `%c3` keeps its escape in capitals, and a blank is escaped.
mixed : normalize_percent_escapes (codes "/%7ea b%c3") true ≡ some (codes "/~a%20b%C3")
unfolding normalize_percent_escapes normalize_from step escaped unescaped code_point percent
mixed = refl

delimiter : normalize_percent_escapes (codes "/a%2Fb") true ≡ none
unfolding normalize_percent_escapes normalize_from step escaped unescaped code_point
delimiter = refl

normalize_percent_escapes-normal_example :
    normalize_percent_escapes (codes "/~a%20b%C3") true ≡ some (codes "/~a%20b%C3")
normalize_percent_escapes-normal_example =
    normalize_percent_escapes-normal (codes "/%7ea b%c3") (codes "/~a%20b%C3") true
      (
        omega arith,
        (
          omega arith,
          (
            omega arith,
            (
              omega arith,
              (
                omega arith,
                (omega arith, (omega arith, (omega arith, (omega arith, (omega arith, tt))))),
              ),
            ),
          ),
        ),
      )
      mixed
