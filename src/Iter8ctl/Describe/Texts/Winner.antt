-- ===== src/Iter8ctl/Describe/Texts/Winner.antt =====
-- iter8ctl/describe/describe.go: when the text on the winner can be read.
use etc.Prelude.{inl, inr, Bool-cases, Option-cases, ◌≡◌, ◌≢◌, ◌↔◌, true, Option, none, some}
use mathlib.Core.Path.{subst}
use etc.Api.Types.{Analysis, WinnerAssessmentAnalysis, Experiment}
use etc.Controller.Effects.{panic}
use etc.Iter8ctl.Effects.{Returns, bind-Returns, first-Returns}
use etc.Iter8ctl.Describe.Texts.{winning_text, winner_text, winner_assessment_text}

-- A winner that was found is named.
unfoldable pub NamesWinner : Option WinnerAssessmentAnalysis → Type 0
NamesWinner none = Unit {0}
NamesWinner (some w) = w.content.winner_found ≡ true → w.content.winner ≢ none

unfoldable pub HasNamedWinner : Option Analysis → Type 0
unfolding NamesWinner
HasNamedWinner none = Unit {0}
HasNamedWinner (some a) = NamesWinner a.winner_assessment

winning_text-Returns :
    (w : WinnerAssessmentAnalysis)
    → (w.content.winner_found ≡ true → w.content.winner ≢ none)
    → Returns (winning_text w)
unfolding winning_text
winning_text-Returns w h = elim (Bool-cases w.content.winner_found) [
  | inl e ↦ elim (Option-cases w.content.winner) [
    | inl n ↦ elim (h e n) [ ]
    | inr (v, m) ↦ rw (e, m) tt
  ]
  | inr e ↦ rw e tt
]

winning_text-NamesWinner :
    (w : WinnerAssessmentAnalysis)
    → Returns (winning_text w)
    → w.content.winner_found ≡ true
    → w.content.winner ≢ none
unfolding winning_text
winning_text-NamesWinner w r found unnamed =
    let panics : winning_text w ≡ panic = rw (found, unnamed) in subst Returns panics r

winner_text-Returns :
    (e : Experiment) (o : Option WinnerAssessmentAnalysis)
    → Returns (winner_text e o) ↔ NamesWinner o
unfolding NamesWinner
winner_text-Returns e none = (λ r. tt, λ h. tt)
winner_text-Returns e (some w) = (
  λ r. winning_text-NamesWinner w (first-Returns (winning_text w) _ r),
  λ h. bind-Returns (winning_text w) _ (winning_text-Returns w h) (λ winning. tt),
)

pub winner_assessment_text-Returns :
    (e : Experiment) (o : Option Analysis) → Returns (winner_assessment_text e o) ↔ HasNamedWinner o
unfolding HasNamedWinner NamesWinner
winner_assessment_text-Returns e none = (λ r. tt, λ h. tt)
winner_assessment_text-Returns e (some a) = winner_text-Returns e a.winner_assessment
