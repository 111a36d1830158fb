-- ===== src/Config/Sample.antt =====
-- A trie that does what a map does, as a function: it stands in the tests for the one of lib/trie.
use itmmorgue.Base.{refl, Option, none, some, if◌then◌else◌, Bytes, same_text}
use itmmorgue.Config.Values.{Conf}
use itmmorgue.Config.Found.{IsMap}

abbrev pub Sample : Type 0
Sample = Bytes → Option Conf

abbrev pub sample_get : Sample → Bytes → Option Conf
sample_get t key = t key

abbrev pub sample_put : Sample → Bytes → Conf → Option Sample
sample_put t key v = some (λ k. if same_text k key then some v else t k)

abbrev pub no_options : Sample
no_options key = none

pub no_options-IsMap : IsMap sample_get sample_put no_options
no_options-IsMap = record { found_none = λ key. refl; put_found = λ t key v. (_, refl, λ k. refl) }
