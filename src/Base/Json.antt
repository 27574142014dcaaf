-- ===== src/Base/Json.antt =====
-- The values that `JSON.parse` yields, as the handlers inspect them.
use Prim.Native.Nat.{ℕ}
use Prim.Native.String.{String}
use mathlib.Core.Bool.{Bool}
use mathlib.Core.Option.{Option, none, some}
use text.Mathlib.Text.{◌==◌}
use meadow_ops.Base.Tests.{if◌then◌else◌}

mutual
  pub data Json : Type 0 where
    null : Json
    bool : Bool → Json
    num : ℕ → Json
    str : String → Json
    arr : Items → Json
    obj : Fields → Json

  pub data Items : Type 0 where
    nil : Items
    cons : Json → Items → Items

  pub data Fields : Type 0 where
    end : Fields
    field : String → Json → Fields → Fields

-- A property of an object by its name; `none` is `undefined`.
unfoldable pub property : String → Fields → Option Json
property k end = none
property k (field j v fs) = if j == k then some v else property k fs

-- `body.detail` of a value that is no object has no such property here.
unfoldable pub get : String → Json → Option Json
unfolding property
get k (obj fs) = property k fs
get k v = none

-- `typeof v === "string"`
unfoldable pub as_text : Option Json → Option String
as_text (some (str s)) = some s
as_text v = none

-- `v ?? d`: the default for `undefined` and for `null`.
unfoldable pub or_default : Option Json → Json → Json
or_default none d = d
or_default (some null) d = d
or_default (some v) d = v
