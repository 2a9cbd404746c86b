-- ===== src/Robots/Glob/Tests.antt =====
-- Runs and witnesses of the globs of robots.txt.
use webprobe.Base.{◌≡◌, refl, true, false, some, arith, if◌then◌else◌}
use webprobe.Base.Text.{Text, codes}
use webprobe.Base.Value.{is_some}
use webprobe.Robots.Glob.{rule_matches, rule_loop, skip_stars, is_anchored, without_last}
use webprobe.Robots.Glob.Correct.{glob, rule_matches_lem}
use webprobe.Robots.Glob.Enough.{rule_matches-enough}

abbrev pdf : Text
pdf = codes "/*.pdf$"

abbrev file : Text
file = codes "/a.pdf/b.pdf"

pdf_matches : rule_matches pdf file 100 ≡ some (true, 82)
unfolding rule_matches rule_loop skip_stars
pdf_matches = refl

rule_matches_lem_example :
    true ≡ (if is_anchored pdf then glob true (without_last pdf) file else glob false pdf file)
rule_matches_lem_example = rule_matches_lem pdf file 100 true 82 pdf_matches

rule_matches-enough_example : is_some (rule_matches pdf file 200) ≡ true
rule_matches-enough_example = rule_matches-enough pdf file 200 (omega arith)
