-- ===== src/Nolol/Converter/Lengths.antt =====
-- pkg/nolol/converter.go: getLengthOfLine and the merging of the lines that are converted.
use yodk.Common.{List}
