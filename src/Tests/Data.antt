-- ===== src/Tests/Data.antt =====
-- The sample request, table and response that the tests share.
use nexide.Prelude.{refl, none, some, [], ◌∷◌, arith}
use nexide.Ops.Request.{Bytes, RequestMeta, RequestSlot}
use nexide.Ops.Response
use nexide.Ops.Response.{ResponseHead}
use nexide.Ops.DispatchTable.{DispatchTable, InFlight, RequestId, vacant, occupied}
use nexide.Ops.DispatchTable.FreeList.{occupied_count}
use nexide.Ops.DispatchTable.Invariant.{IsValid}

abbrev pub get_method : Bytes
get_method = b'G' ∷ b'E' ∷ b'T' ∷ []

abbrev pub root_uri : Bytes
root_uri = b'/' ∷ []

abbrev pub sample_meta : RequestMeta
sample_meta = record { method = get_method; uri = root_uri }

abbrev pub sample_slot : RequestSlot
sample_slot = record {
  meta = sample_meta;
  headers = [];
  body = 1 ∷ 2 ∷ 3 ∷ 4 ∷ 5 ∷ [];
  body_cursor = 0;
}

abbrev pub waiting_request : InFlight
waiting_request = record { request = sample_slot; response = Response.new; completion = some 7 }

-- One request in flight in slot 0, and slot 1 free with generation 3.
abbrev pub busy : DispatchTable
busy = record {
  slots = occupied 0 waiting_request ∷ vacant 3 none ∷ [];
  free_head = some 1;
  in_flight = 1;
}

abbrev pub busy_id : RequestId
busy_id = record { index = 0; generation = 0 }

pub busy-IsValid : IsValid busy
unfolding occupied_count
busy-IsValid = record {
  free = 1 ∷ [];
  listed = record { chain = (3, none, refl, refl, refl); distinct = (tt, tt); complete = refl };
  counted = refl;
  sized = omega arith;
}

abbrev pub ok_head : ResponseHead
ok_head = record { status = 200; headers = [] }
