-- ===== src/Decimal/Tests.antt =====
-- Runs on decimal numbers.
use jaeger_client_cpp.Base.{◌≡◌, refl, true, false, codes, pos, negsuc}
use jaeger_client_cpp.Decimal.{
  print_loop, print_int, scan_digits, scan_positive, scan_negative, scan_int,
}

prints : print_int (negsuc 41) ≡ codes "-42"
unfolding print_int print_loop
prints = refl

scans : scan_int (codes " -42ms") ≡ (true, negsuc 41)
unfolding scan_int scan_negative scan_digits
scans = refl

no_number : scan_int (codes "x") ≡ (false, pos 0)
unfolding scan_int scan_positive scan_digits
no_number = refl
