-- ===== src/Base/Json.antt =====
-- JSON values. Numbers are whole and not negative; `JSON.parse` and `JSON.stringify` are the
-- runtime's, of which nothing is assumed here.
use Prim.Native.Nat.{ℕ}
use Prim.Native.String.{String}
use mathlib.Core.Bool.{Bool}
use mathlib.Core.Option.{Option, none, some}
use secure_claw.Base.Tests.{◌==◌, if◌then◌else◌}

mutual
  pub data Json : Type 0 where
    null : Json
    bool : Bool → Json
    num : ℕ → Json
    str : String → Json
    arr : Items → Json
    obj : Fields → Json

  pub data Items : Type 0 where
    nil : Items
    cons : Json → Items → Items

  pub data Fields : Type 0 where
    end : Fields
    field : String → Json → Fields → Fields

-- `o[k]`
unfoldable pub get_field : Fields → String → Option Json
get_field end k = none
get_field (field j v fs) k = if j == k then some v else get_field fs k

-- `o[k] = v`
unfoldable pub set_field : Fields → String → Json → Fields
set_field end k v = field k v end
set_field (field j w fs) k v = if j == k then field j v fs else field j w (set_field fs k v)

pub record JsonCodec : Type 0 where
  pub stringify : Json → String
  -- `none` is a thrown SyntaxError
  pub parse : String → Option Json
